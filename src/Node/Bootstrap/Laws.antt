-- ===== src/Node/Bootstrap/Laws.antt =====
-- When `BootstrapConnect` succeeds.
use open_acn.Base.{
  if_both, append-nil, ◌++◌, suc, ◌<◌, ◌≡◌, ◌↔◌, ◌⊎◌, inl, inr, refl, Bool, true, false, List, [],
  ◌∷◌, length, ◌==◌, Except, done, fail, Result, ok, Exec, All, Bool-cases, arith, if◌then◌else◌,
  msg, raise,
}
use open_acn.Acn.Message.{◌+ˢ◌}
use open_acn.Node.Addresses.{AddrInfo}
use open_acn.Node.Bootstrap.{
  Host, Network, last_text, put_error, dial_errors, await_in_table, bootstrap_connect,
}

abbrev pub Some : (AddrInfo → Type 0) → List AddrInfo → Type 0
Some P [] = ⊥
Some P (p ∷ ps) = P p ⊎ Some P ps

module _ (net : Network) where
  abbrev pub Connects : AddrInfo → Type 0
  Connects p = net.connect p ≡ done tt

  abbrev pub InTable : AddrInfo → Type 0
  InTable p = net.in_table p.id ≡ true

  dial_errors_cases :
      (ps : List AddrInfo)
      → ((length (dial_errors net ps) ≡ length ps) × ¬ Some Connects ps)
        ⊎ ((length (dial_errors net ps) < length ps) × Some Connects ps)
  unfolding dial_errors
  dial_errors_cases [] = inl (refl, λ x. x)
  dial_errors_cases (p ∷ ps) = go (net.connect p) refl (dial_errors_cases ps)
    where
      go :
          (x : Except (Unit {0}))
          → net.connect p ≡ x
          → ((length (dial_errors net ps) ≡ length ps) × ¬ Some Connects ps)
            ⊎ ((length (dial_errors net ps) < length ps) × Some Connects ps)
          → ((length (put_error net x (dial_errors net ps)) ≡ suc (length ps))
              × ¬ (Connects p ⊎ Some Connects ps))
            ⊎ ((length (put_error net x (dial_errors net ps)) < suc (length ps))
                × (Connects p ⊎ Some Connects ps))
      go (fail e) q (inl (same, n)) = inl (omega arith, λ c. elim c [ inl d ↦ cc | inr s ↦ n s ])
      go (fail e) q (inr (less, s)) = inr (omega arith, inr s)
      go (done _) q (inl (same, n)) = inr (omega arith, inl q)
      go (done _) q (inr (less, s)) = inr (omega arith, inl q)

  await_in_table_iff :
      (ps : List AddrInfo) (h : Host) → ((await_in_table net ps h).0 ≡ ok tt) ↔ All InTable ps
  unfolding await_in_table
  await_in_table_iff [] h = (λ e. tt, λ a. refl)
  await_in_table_iff (p ∷ ps) h = elim (Bool-cases (net.in_table p.id)) [
    | inl t ↦
        rw t (λ e. (refl, (await_in_table_iff ps h).0 e), λ a. (await_in_table_iff ps h).1 a.1)
    | inr f ↦ rw f (λ e. cc, λ a. cc)
  ]

  await_in_table_state : (ps : List AddrInfo) (h : Host) → (await_in_table net ps h).1 ≡ h
  unfolding await_in_table
  await_in_table_state [] h = refl
  await_in_table_state (p ∷ ps) h =
      if_both {A = Exec Host (Unit {0})} (λ m. (m h).1 ≡ h) (net.in_table p.id) _ _
        (await_in_table_state ps h) refl

  -- Whether `BootstrapConnect` succeeds, and what it adds to the peerstore.
  abbrev Booted : List AddrInfo → Host → Result (Unit {0}) × Host → Type 0
  Booted ps h x =
      ((x.0 ≡ ok tt) ↔ (Some Connects ps × All InTable ps))
      × (x.1 ≡ record h { peerstore = h.peerstore ++ ps })

  connected :
      (p : AddrInfo) (ps : List AddrInfo) (h : Host) (b : Bool)
      → (length (dial_errors net (p ∷ ps)) == length (p ∷ ps)) ≡ b
      → ((length (dial_errors net (p ∷ ps)) ≡ length (p ∷ ps)) × ¬ Some Connects (p ∷ ps))
        ⊎ ((length (dial_errors net (p ∷ ps)) < length (p ∷ ps)) × Some Connects (p ∷ ps))
      → Booted (p ∷ ps) h (
          (if b
              then raise (msg ("failed to bootstrap: " +ˢ last_text "" (dial_errors net (p ∷ ps))))
              else await_in_table net (p ∷ ps))
            (record h { peerstore = h.peerstore ++ (p ∷ ps) }))
  connected p ps h true q (inl (same, n)) = ((λ r. cc, λ a. absurd (n a.0)), refl)
  connected p ps h true q (inr (less, s)) = absurd (ground arith)
  connected p ps h false q (inl (same, n)) = absurd (ground arith)
  connected p ps h false q (inr (less, s)) =
      let (there, back) =
        await_in_table_iff (p ∷ ps) (record h { peerstore = h.peerstore ++ (p ∷ ps) }) in
      ((λ r. (s, there r), λ a. back a.1), await_in_table_state (p ∷ ps) _)

  -- BootstrapConnect succeeds exactly when a dial to some peer succeeds and every peer is found in
  -- the routing table in time; however it ends, the addresses of all the peers are in the peerstore.
  pub bootstrap_connect_iff :
      (ps : List AddrInfo) (h : Host)
      → (((bootstrap_connect net ps h).0 ≡ ok tt) ↔ (Some Connects ps × All InTable ps))
        × ((bootstrap_connect net ps h).1 ≡ record h { peerstore = h.peerstore ++ ps })
  unfolding bootstrap_connect
  bootstrap_connect_iff [] h = ((λ e. cc, λ a. absurd a.0), rw append-nil)
  bootstrap_connect_iff (p ∷ ps) h = connected p ps h _ refl (dial_errors_cases (p ∷ ps))
