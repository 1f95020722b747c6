-- ===== src/Signature/Laws.antt =====
-- When a delivery's signature is accepted.
use Prim.Native.String.{◌++◌}
use chargeback_iq.Prelude.{
  ℕ, ◌+◌, ◌*◌, ◌≤◌, ◌<◌, String, Option, none, some, true, ◌≡◌, ◌≢◌, ◌↔◌, inl, inr, arith,
  Option-cases,
}
use chargeback_iq.Signature.{
  Runtime, Delivery, valid, timestamp_outside_tolerance, safe_compare, compute_signature,
  verify_signature, buffer, distance,
}

-- `safeCompare` is equality, with an absent value read as the empty text.
pub safe_compare_iff : (a b : Option String) → (safe_compare a b ≡ true) ↔ (buffer a ≡ buffer b)
unfolding safe_compare
safe_compare_iff a b = ground arith

-- What a valid delivery carries.
pub record IsSigned (rt : Runtime) (d : Delivery) : Type 0 where
  pub timestamp : String
  pub signature : String
  pub seconds : ℕ
  pub has_timestamp : d.timestamp ≡ some timestamp
  pub has_signature : d.signature ≡ some signature
  pub timestamp_given : timestamp ≢ ""
  pub signature_given : signature ≢ ""
  pub numeric : rt.to_seconds timestamp ≡ some seconds
  pub not_late : d.now ≤ (seconds + d.tolerance_seconds) * 1000
  pub not_early : seconds * 1000 ≤ d.now + d.tolerance_seconds * 1000
  pub matches : signature ≡ rt.hmac_sha256 d.secret (timestamp ++ "." ++ d.raw_body)

IsSigned-of :
    (rt : Runtime) (d : Delivery) (t s : String) (n : ℕ)
    → d.timestamp ≡ some t
    → d.signature ≡ some s
    → rt.to_seconds t ≡ some n
    → verify_signature rt d ≡ valid
    → IsSigned rt d
unfolding verify_signature compute_signature safe_compare
IsSigned-of rt d t s n et es en h = record {
  timestamp = t;
  signature = s;
  seconds = n;
  has_timestamp = et;
  has_signature = es;
  timestamp_given = ground arith;
  signature_given = ground arith;
  numeric = en;
  not_late = ground arith;
  not_early = ground arith;
  matches = ground arith;
}

module _ (rt : Runtime) (d : Delivery) where
  accepted_of : IsSigned rt d → verify_signature rt d ≡ valid
  unfolding verify_signature compute_signature safe_compare
  accepted_of g = ground arith

  no_timestamp : d.timestamp ≡ none → verify_signature rt d ≢ valid
  unfolding verify_signature
  no_timestamp e = ground arith

  no_signature : d.signature ≡ none → verify_signature rt d ≢ valid
  unfolding verify_signature
  no_signature e = ground arith

  not_numeric :
      (t : String) → d.timestamp ≡ some t → rt.to_seconds t ≡ none → verify_signature rt d ≢ valid
  unfolding verify_signature
  not_numeric t e k = ground arith

  IsSigned-with :
      (t s : String)
      → d.timestamp ≡ some t
      → d.signature ≡ some s
      → verify_signature rt d ≡ valid
      → IsSigned rt d
  IsSigned-with t s et es h = elim (Option-cases (rt.to_seconds t)) [
    | inl e ↦ absurd (not_numeric t et e h)
    | inr (n, e) ↦ IsSigned-of rt d t s n et es e h
  ]

  accepted : verify_signature rt d ≡ valid → IsSigned rt d
  accepted h = elim (Option-cases d.timestamp) [
    | inl e ↦ absurd (no_timestamp e h)
    | inr (t, et) ↦ elim (Option-cases d.signature) [
      | inl e ↦ absurd (no_signature e h)
      | inr (s, es) ↦ IsSigned-with t s et es h
    ]
  ]

  -- A delivery is valid exactly when both headers are there and not empty, the timestamp is a number
  -- at most the tolerance away from the clock on either side, and the signature is the HMAC, under
  -- the secret, of the timestamp, a dot and the body as received.
  pub verify_signature_iff : (verify_signature rt d ≡ valid) ↔ IsSigned rt d
  verify_signature_iff = (accepted, accepted_of)

  -- A captured valid delivery, sent again unchanged after twice the tolerance, is refused for its age.
  pub verify_signature_replay :
      (later : ℕ)
      → verify_signature rt d ≡ valid
      → d.now + 2 * d.tolerance_seconds * 1000 < later
      → (age : ℕ) × (verify_signature rt (record d { now = later })
          ≡ timestamp_outside_tolerance age)
        × (d.tolerance_seconds * 1000 < age)
  unfolding verify_signature
  verify_signature_replay later h k =
      let g = accepted h in
      (distance later (g.seconds * 1000), ground (arith, g), ground (arith, g))
