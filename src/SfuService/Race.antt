-- ===== src/SfuService/Race.antt =====
-- Two sockets that are the first in a call at the same time. `getRtpCapabilities` waits for
-- mediasoup between the test of the map and the write to it, so both find no call.
use smartmeet_backend.Prelude.{
  ℕ, ◌≡◌, refl, ap, sym, ◌∙◌, ◌≢◌, Option, none, some, ◌∷◌, arith, Result, ok, err, Action, ◌>>=◌,
  ◌>>◌, modify, pure, proceed,
}
use smartmeet_backend.Errors.{plain_error}
use smartmeet_backend.Prelude.Map.{nat_key, get, set, get-set_self}
use smartmeet_backend.SfuService.Opening.{update_call_same}
use smartmeet_backend.SfuService.{
  Sfu, Call, Peer, new_peer, new_call, begin_call, rest_of_call, get_or_create_call, update_call,
  add_peer, get_peer, get_rtp_capabilities, router_created,
}

-- What is left of `getRtpCapabilities` when mediasoup has answered.
unfoldable pub second_half : Result ℕ → ℕ → ℕ → ℕ → Option Call × Option ℕ → Action Sfu ℕ
second_half created c k u begun = do
  call ← rest_of_call created c begun
  modify (update_call c call.router (add_peer k u))
  pure call.router

proceed_assoc :
    {S A B C : Type 0} (step : Result A × S) (f : A → Action S B) (g : B → Action S C)
    → proceed (proceed step f) g ≡ proceed step (λ a s. proceed (f a s) g)
proceed_assoc (ok a, s) f g = refl
proceed_assoc (err e, s) f g = refl

-- With nothing in between, the two halves are the operation.
pub get_rtp_capabilities-halves :
    (created : Result ℕ) (c k u : ℕ) (s : Sfu)
    → get_rtp_capabilities created c k u s ≡ proceed (begin_call c s) (second_half created c k u)
unfolding get_rtp_capabilities get_or_create_call second_half
get_rtp_capabilities-halves created c k u s =
    proceed_assoc (begin_call c s) (rest_of_call created c) _

-- The first half finds no call, and leaves the map as it is.
begin_call_new :
    (c : ℕ) (s s' : Sfu) (begun : Option Call × Option ℕ)
    → get s.calls c ≡ none
    → begin_call c s ≡ (ok begun, s')
    → (begun.0 ≡ none) × (get s'.calls c ≡ none)
unfolding begin_call
begin_call_new c s s' begun missing e = ground arith

-- The second half after such a first one: the call is new, and the socket is its one peer.
abbrev opened : ℕ → ℕ → ℕ → Sfu → Sfu
opened c w r s = record s {
  calls = set s.calls c (new_call r);
  effects = router_created w r ∷ s.effects;
}

second_half_run :
    (c k u w r : ℕ) (s : Sfu)
    → second_half (ok r) c k u (none, some w) s ≡ (
      ok r,
      record (opened c w r s) { calls = set (opened c w r s).calls c (add_peer k u (new_call r)) },
    )
unfolding second_half rest_of_call
second_half_run c k u w r s =
    ap (λ t. (ok r, t))
      (update_call_same c (new_call r) (add_peer k u) (opened c w r s)
        (get-set_self s.calls c (new_call r)))

second_half_new :
    (created : Result ℕ) (c k u : ℕ) {r : ℕ} (begun : Option Call × Option ℕ) (s : Sfu)
    → begun.0 ≡ none
    → (second_half created c k u begun s).0 ≡ ok r
    → (w : ℕ) × (get (second_half created c k u begun s).1.calls c
        ≡ some (add_peer k u (new_call r)))
second_half_new created c k u (some call, w) s new done = cc
second_half_new created c k u (none, none) s new done =
    unfold second_half rest_of_call in ground arith
second_half_new (err e) c k u (none, some w) s new done =
    unfold second_half rest_of_call in ground arith
second_half_new (ok r') c k u {r} (none, some w) s new done =
    let same : r' ≡ r = ground (arith, second_half_run c k u w r' s) in
    (
      w,
      ap (λ (x : Result ℕ × Sfu). get x.1.calls c) (second_half_run c k u w r' s)
          ∙ get-set_self (opened c w r' s).calls c (add_peer k u (new_call r'))
          ∙ ap (λ n. some (add_peer k u (new_call n))) same,
    )

get_peer_only :
    (c k j u r : ℕ) (s : Sfu)
    → k ≢ j
    → get s.calls c ≡ some (add_peer k u (new_call r))
    → (get_peer c j s).0 ≡ err (plain_error "No SFU peer for socket")
unfolding get_peer get set
get_peer_only c k j u r s apart there = ground arith

get_peer_self :
    (c k u r : ℕ) (s : Sfu)
    → get s.calls c ≡ some (add_peer k u (new_call r))
    → (found : Call × Peer) × ((get_peer c k s).0 ≡ ok found)
unfolding get_peer get set
get_peer_self c k u r s there = ((add_peer k u (new_call r), new_peer k u), ground arith)

-- Two different sockets ask at the same time for the capabilities of a call that is not there
-- yet: both first halves run before either second half, and both are answered with success. Then
-- the first socket is a peer of the call once its own half is through, and when the other's is
-- through too, the look-up of its peer, with which its later requests begin, fails.
pub first_callers_race :
    (created created' : Result ℕ) (c k j u v : ℕ) {r r' : ℕ} (s s₁ s₂ : Sfu)
    (begun begun' : Option Call × Option ℕ)
    → k ≢ j
    → get s.calls c ≡ none
    → begin_call c s ≡ (ok begun, s₁)
    → begin_call c s₁ ≡ (ok begun', s₂)
    → (second_half created c k u begun s₂).0 ≡ ok r
    → (second_half created' c j v begun' (second_half created c k u begun s₂).1).0 ≡ ok r'
    → let s₃ = (second_half created c k u begun s₂).1 in
      let s₄ = (second_half created' c j v begun' s₃).1 in
      ((found : Call × Peer) × ((get_peer c k s₃).0 ≡ ok found))
      × ((get_peer c k s₄).0 ≡ err (plain_error "No SFU peer for socket"))
first_callers_race created created' c k j u v {r} {r'} s s₁ s₂ begun begun' apart missing e e' done
      done' =
    let (new, missing') = begin_call_new c s s₁ begun missing e in
    let (new', missing'') = begin_call_new c s₁ s₂ begun' missing' e' in
    let (w, there) = second_half_new created c k u begun s₂ new done in
    let s₃ = (second_half created c k u begun s₂).1 in
    let (w', there') = second_half_new created' c j v begun' s₃ new' done' in
    (get_peer_self c k u r s₃ there, get_peer_only c j k v r' _ (λ q. apart (sym q)) there')
