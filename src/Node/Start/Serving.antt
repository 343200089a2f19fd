-- ===== src/Node/Start/Serving.antt =====
-- What the services of a peer that starts leave as it was.
use open_acn.Base.{
  String, ℕ, Bool, true, false, List, [], ◌∷◌, append_assoc, Except, done, fail, ok, Exec, ◌>>◌,
  if◌then◌else◌, ◌≡◌, ap, sym, ◌∙◌, ◌==◌, ◌=ˢ◌, bind-eq-ok, pure,
}
use open_acn.Base.GoMap.{GoMap}
use open_acn.Acn.Message.{AgentRecord, ◌+ˢ◌}
use open_acn.Peer.State.{Cid}
use open_acn.Node.Bootstrap.{Host}
use open_acn.Node.Close.{Running, monitoring, slow_envelopes}
use open_acn.Node.Start.{
  Setup, aea_address_stream, aea_envelope_stream, listened, launch, launch_delegate_service,
  launch_mailbox_service, start_mailbox, serve, set_stream_handler,
}
use open_acn.Node.Start.Steps.{handling}

-- The parts of a peer that start-up fills and that its services read.
pub record View : Type 0 where
  pub own : String
  pub announced : GoMap Bool
  pub provided : List Cid
  pub enabled : Bool
  pub records : GoMap AgentRecord
  pub addresses : GoMap String
  pub network : Host

abbrev pub view : Running → View
view s = record {
  own = s.node.my_agent_address;
  announced = s.node.address_announced_map;
  provided = s.node.provide_calls;
  enabled = s.node.enable_address_announcement;
  records = s.node.agent_records;
  addresses = s.node.dht_addresses;
  network = s.network;
}

abbrev pub serving : View → View
serving v = record v {
  network = handling (aea_address_stream ∷ aea_envelope_stream ∷ []) v.network;
}

module _ (setup : Setup) where
  launch_delegate_service-view :
      (host : String) (port : ℕ) (s t : Running)
      → launch_delegate_service setup host port s ≡ (ok tt, t)
      → view s ≡ view t
  unfolding launch_delegate_service
  launch_delegate_service-view host port s t =
      go (port == 0) (setup.listen (host +ˢ ":" +ˢ setup.decimal port))
    where
      go :
          (b : Bool) (x : Except (Unit {0}))
          → (if b then pure tt else listened setup (host +ˢ ":" +ˢ setup.decimal port) x) s
            ≡ (ok tt, t)
          → view s ≡ view t
      go true x e = ap (λ x. view x.1) e
      go false (done _) e = ap (λ x. view x.1) e
      go false (fail _) e = cc

  launch_mailbox_service-view :
      (host_port : String) (s t : Running)
      → launch_mailbox_service setup host_port s ≡ (ok tt, t)
      → view s ≡ view t
  unfolding launch_mailbox_service
  launch_mailbox_service-view host_port s t = go (host_port =ˢ "")
    where
      go :
          (b : Bool) → (if b then pure tt else start_mailbox setup) s ≡ (ok tt, t) → view s ≡ view t
      go true e = ap (λ x. view x.1) e
      go false e = ap (λ x. view x.1) e

  abbrev last_services : Exec Running (Unit {0})
  last_services = launch monitoring >> launch slow_envelopes

  abbrev handled : Running → Running
  handled s =
      (((set_stream_handler aea_address_stream) >> set_stream_handler aea_envelope_stream) s).1

  pub serve-view :
      (host : String) (port : ℕ) (mailbox_host_port : String) (s t : Running)
      → serve setup host port mailbox_host_port s ≡ (ok tt, t)
      → serving (view s) ≡ view t
  unfolding serve
  serve-view host port mailbox_host_port s t e =
      let (x, u, e1, f1) =
        bind-eq-ok (launch_delegate_service setup host port)
          (λ _. launch_mailbox_service setup mailbox_host_port >> last_services) (handled s) t e in
      let (y, v, e2, f2) =
        bind-eq-ok (launch_mailbox_service setup mailbox_host_port) (λ _. last_services) u t f1 in
      ap (λ l. record (view s) { network = record s.network { stream_handlers = l } })
        (sym (
          append_assoc s.network.stream_handlers (aea_address_stream ∷ [])
            (aea_envelope_stream ∷ [])))
      ∙ launch_delegate_service-view host port (handled s) u e1
      ∙ launch_mailbox_service-view mailbox_host_port u v e2
      ∙ ap (λ x. view x.1) f2
