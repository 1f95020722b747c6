-- ===== src/Signature.antt =====
-- src/lib/signature.js: the signature of a webhook delivery.
--
-- `createHmac('sha256', secret).update(text).digest('hex')` and `Number(text)` are parameters. The
-- timestamp, where it is a finite number, is a whole number of seconds; ages are in milliseconds.
pub mod Laws
use Prim.Native.String.{◌++◌, len}
use chargeback_iq.Prelude.{
  ℕ, ◌+◌, ◌-◌, ◌*◌, String, Option, none, some, Bool, true, false, not, ◌||◌, if◌then◌else◌, ◌==◌,
  leb, ltb, nat_eq, or_default,
}

pub record Runtime : Type 0 where
  -- The hex digest of the HMAC-SHA256 of a text under a secret.
  pub hmac_sha256 : (secret text : String) → String
  -- `Number(text)`: none unless it is finite; otherwise its seconds after the earliest Date (0 for a
  -- number before that).
  pub to_seconds : String → Option ℕ

-- `Buffer.from(a ?? '', 'utf8')`, as the text whose bytes it holds.
abbrev pub buffer : Option String → String
buffer a = or_default a ""

unfoldable pub safe_compare : Option String → Option String → Bool
safe_compare a b =
    if not (nat_eq (len (buffer a)) (len (buffer b))) then false else buffer a == buffer b

unfoldable pub compute_signature : Runtime → (secret timestamp raw_body : String) → String
compute_signature rt secret timestamp raw_body =
    rt.hmac_sha256 secret (timestamp ++ "." ++ raw_body)

pub data Check : Type 0 where
  valid : Check
  missing_signature_headers malformed_timestamp signature_mismatch : Check
  timestamp_outside_tolerance : (age_ms : ℕ) → Check

-- `!value` for a header: it is absent or empty.
abbrev pub is_blank : Option String → Bool
is_blank none = true
is_blank (some s) = s == ""

abbrev pub distance : ℕ → ℕ → ℕ
distance a b = if leb a b then b - a else a - b

pub record Delivery : Type 0 where
  pub secret : String
  pub timestamp : Option String
  pub raw_body : String
  pub signature : Option String
  pub tolerance_seconds : ℕ
  pub now : ℕ

module _ (rt : Runtime) (d : Delivery) where
  -- The comparison at the end of `verifySignature`.
  unfoldable pub check_signature : String → Check
  unfolding compute_signature safe_compare
  check_signature timestamp =
      if safe_compare (some (compute_signature rt d.secret timestamp d.raw_body)) d.signature
      then valid
      else signature_mismatch

  -- The replay window, then the comparison.
  unfoldable pub check_age : String → Option ℕ → Check
  check_age timestamp none = malformed_timestamp
  check_age timestamp (some ts) =
      let age = distance d.now (ts * 1000) in
      if ltb (d.tolerance_seconds * 1000) age
      then timestamp_outside_tolerance age
      else check_signature timestamp

  unfoldable pub verify_signature : Check
  unfolding check_age check_signature
  verify_signature =
      if is_blank d.timestamp || is_blank d.signature
      then missing_signature_headers
      else check_age (buffer d.timestamp) (rt.to_seconds (buffer d.timestamp))
