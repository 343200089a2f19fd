-- ===== src/Node/Checked.antt =====
-- What the checks of a node's own record show.
use open_acn.Base.{
  String, Bool, true, false, Option, none, some, Err, Result, ok, err, panic, ◌≡◌, refl,
  if◌then◌else◌,
}
use open_acn.Base.Pure.{◌>>=◌, bind-eq-ok}
use open_acn.Acn.Message.{AgentRecord}
use open_acn.Por.Crypto.{Crypto}
use open_acn.Por.Signing.{Keys, fetchai_public_key_from_pub_key}
use open_acn.Por.Check.{Verdict, is_verified, is_valid_proof_of_representation}
use open_acn.Node.Settings.{own_key, judge, check_record}

module _ (c : Crypto) (k : Keys c) where
  -- The record is a valid proof that the peer with this key represents its agent.
  abbrev pub Represented : k.NodeKey → AgentRecord → Type 0
  Represented public_key r =
      (t : String) × (v : Verdict) × (fetchai_public_key_from_pub_key c k public_key ≡ ok t)
      × (is_valid_proof_of_representation c r r.address t ≡ ok v)
      × (is_verified v ≡ true)

  pub check_record-Represented :
      (failure : Option Err → Option Err → Err) (public_key : k.NodeKey) (r : AgentRecord)
      → check_record c k failure public_key r ≡ ok tt
      → Represented public_key r
  unfolding check_record
  check_record-Represented failure public_key r e =
      let (key, held, rest) =
        bind-eq-ok (own_key c k (fetchai_public_key_from_pub_key c k public_key))
          (λ key. is_valid_proof_of_representation c r r.address key.0 >>= judge c k failure key.1)
          e in
      let (v, valid, judged) =
        bind-eq-ok (is_valid_proof_of_representation c r r.address key.0) (judge c k failure key.1)
          rest in
      let (same, verified) = accepted key.1 v judged in
      let shown = known (fetchai_public_key_from_pub_key c k public_key) key held same in
      (key.0, v, shown, valid, verified)
    where
      accepted :
          (x : Option Err) (v : Verdict)
          → judge c k failure x v ≡ ok tt
          → (x ≡ none) × (is_verified v ≡ true)
      accepted none v p = (refl, go (is_verified v) p)
        where
          go :
              (b : Bool)
              → ◌≡◌ {A = Result (Unit {0})} (if b then ok tt else err (failure none v.1)) (ok tt)
              → b ≡ true
          go true q = refl
          go false q = cc
      accepted (some x) v p = cc

      known :
          (x : Result String) (key : String × Option Err)
          → own_key c k x ≡ ok key
          → key.1 ≡ none
          → x ≡ ok key.0
      known (ok t) key p n = cc
      known (err y) key p n = cc
      known panic key p n = cc
