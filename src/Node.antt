-- ===== src/Node.antt =====
-- The start of a node: the configuration of libp2p_node.go, the options and constructors of peers and
-- clients, and their `Close`.
pub mod Addresses
pub mod Bootstrap
pub mod Settings
pub mod Checked
pub mod PeerOptions
pub mod ClientOptions
pub mod Main
pub mod Close
pub mod Start
pub mod StartClient
pub mod Run
