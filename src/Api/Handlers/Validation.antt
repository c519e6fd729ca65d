-- ===== src/Api/Handlers/Validation.antt =====
-- Which upsert requests are valid.
use tsdns.Prelude.{ℕ, ◌<◌, ℤ, pos, negsuc, is_negative, false, ◌≡◌, ◌≢◌, refl, none, [], arith}
use tsdns.Text.Bytes.{equal, equal_iff}
use tsdns.Text.Space.{trim_space}
use tsdns.Api.Requests.{UpsertRecordRequest}
use tsdns.Api.Targets.{to_uint16}
use tsdns.Api.Handlers.{exceeds, validate_upsert_record_request}

-- What a request has that passes the validation.
abbrev pub IsValidRequest : UpsertRecordRequest → Type 0
IsValidRequest r =
    (trim_space r.domain ≢ [])
    × ((p : ℕ) × (r.port ≡ pos p) × (p < 65536) × (to_uint16 r.port ≡ p))
    × ((i : ℕ) × (r.instance_id ≡ pos i))

port_in_range :
    (q : ℤ)
    → is_negative q ≡ false
    → exceeds 65535 q ≡ false
    → (p : ℕ) × (q ≡ pos p) × (p < 65536) × (to_uint16 q ≡ p)
unfolding to_uint16
port_in_range (pos p) n e = (p, refl, ground arith, ground arith)
port_in_range (negsuc p) n e = absurd (cc n)

instance_in_range : (i : ℤ) → is_negative i ≡ false → (n : ℕ) × (i ≡ pos n)
instance_in_range (pos n) e = (n, refl)
instance_in_range (negsuc n) e = absurd (cc e)

validated :
    (r : UpsertRecordRequest)
    → validate_upsert_record_request r ≡ none
    → (equal (trim_space r.domain) [] ≡ false)
      × (is_negative r.port ≡ false)
      × (exceeds 65535 r.port ≡ false)
      × (is_negative r.instance_id ≡ false)
unfolding validate_upsert_record_request
validated r h = ground arith

-- A request that the validation lets pass has a domain that is not blank, a port below 65536, which
-- the conversion to uint16 keeps, and an instance that is not negative.
pub validate_upsert_record_request-IsValidRequest :
    (r : UpsertRecordRequest) → validate_upsert_record_request r ≡ none → IsValidRequest r
validate_upsert_record_request-IsValidRequest r h =
    let (domain, low, high, instance_id) = validated r h in
    (
      (λ e. cc (domain, (equal_iff (trim_space r.domain) []).1 e)),
      port_in_range r.port low high,
      instance_in_range r.instance_id instance_id,
    )
