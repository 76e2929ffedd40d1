-- ===== src/Mesh/Contract.antt =====
-- mesh_contract_lab.py: its dataclasses and its pure functions. Fractions count hundredths; traffic and
-- the numbers of requests are natural numbers, since the source rejects negative ones.
use staff_sre_platform_engin.Shared.{
  ℕ, ◌+◌, ℤ, pos, ◌+ℤ◌, ◌-ℤ◌, max_ℤ, ltb_ℤ, leb_ℤ, String, Bool, true, false, not, ◌&&◌, ◌||◌, ltb,
  List, [], ◌∷◌, any, str_eq, if◌then◌else◌, Result, ok, ◌>>◌, raise_if, with_margin, share_of,
}

pub record ConfigSnapshot : Type 0 where
  pub version : String
  pub is_valid : Bool
  pub endpoints : List String

pub data XdsResponse : Type 0 where
  nack ack : XdsResponse

pub record XdsResult : Type 0 where
  pub active_version : String
  pub response : XdsResponse
  pub serving_endpoints : List String

abbrev pub no_endpoints : List String → Bool
no_endpoints [] = true
no_endpoints (_ ∷ _) = false

unfoldable pub apply_xds : (active candidate : ConfigSnapshot) → XdsResult
apply_xds active candidate =
    if not candidate.is_valid || no_endpoints candidate.endpoints
    then record {
      active_version = active.version;
      response = nack;
      serving_endpoints = active.endpoints;
    }
    else record {
      active_version = candidate.version;
      response = ack;
      serving_endpoints = candidate.endpoints;
    }

pub record Certificate : Type 0 where
  pub serial : String
  pub not_before : ℤ
  pub not_after : ℤ
  pub root : String

unfoldable pub valid_at : Certificate → ℤ → Bool
valid_at c timestamp = leb_ℤ c.not_before timestamp && ltb_ℤ timestamp c.not_after

pub data HandshakeReason : Type 0 where
  leaf_not_valid untrusted_root trusted_and_current : HandshakeReason

pub record RotationResult : Type 0 where
  pub handshake_allowed : Bool
  pub reason : HandshakeReason

abbrev pub trusts : List String → String → Bool
trusts roots root = any (λ r. str_eq r root) roots

unfoldable pub evaluate_handshake : Certificate → ℤ → List String → RotationResult
unfolding valid_at
evaluate_handshake leaf timestamp trusted_roots =
    if not (valid_at leaf timestamp)
    then record { handshake_allowed = false; reason = leaf_not_valid }
    else if not (trusts trusted_roots leaf.root)
    then record { handshake_allowed = false; reason = untrusted_root }
    else record { handshake_allowed = true; reason = trusted_and_current }

pub record DnsEntry : Type 0 where
  pub address : String
  pub observed_at : ℤ
  pub ttl_seconds : ℤ
  pub stale_if_error_seconds : ℤ

pub data DnsReason : Type 0 where
  fresh bounded_stale_fallback expired : DnsReason

pub record DnsDecision : Type 0 where
  pub usable : Bool
  pub is_stale : Bool
  pub reason : DnsReason

pub data MeshError : Type 0 where
  precedes_observation bad_retry_budget : MeshError

unfoldable pub evaluate_dns :
    DnsEntry → ℤ → (resolver_healthy : Bool) → Result MeshError DnsDecision
evaluate_dns entry timestamp resolver_healthy =
    let age = timestamp -ℤ entry.observed_at in
    raise_if (ltb_ℤ age (pos 0)) precedes_observation
    >> ok (
        if leb_ℤ age entry.ttl_seconds
        then record { usable = true; is_stale = false; reason = fresh }
        else if not resolver_healthy
            && leb_ℤ age (entry.ttl_seconds +ℤ entry.stale_if_error_seconds)
        then record { usable = true; is_stale = true; reason = bounded_stale_fallback }
        else record { usable = false; is_stale = false; reason = expired })

pub record RemoteCell : Type 0 where
  pub name : String
  pub capacity : ℤ
  pub current_load : ℤ
  pub gateway_healthy : Bool
  pub identity_healthy : Bool
  pub data_fresh : Bool
  pub write_authority : Bool

-- `max(0, capacity - current_load)`
unfoldable pub cell_headroom : RemoteCell → ℤ
cell_headroom c = max_ℤ (pos 0) (c.capacity -ℤ c.current_load)

pub data FailoverReason : Type 0 where
  gateway_unhealthy identity_path_unhealthy data_not_fresh write_authority_not_fenced :
      FailoverReason
  insufficient_headroom safe_to_shift : FailoverReason

pub record FailoverResult : Type 0 where
  pub allowed : Bool
  pub reason : FailoverReason
  pub required_headroom : ℤ
  pub available_headroom : ℤ

abbrev pub failover_result : RemoteCell → ℤ → Bool → FailoverReason → FailoverResult
failover_result cell required allowed why = record {
  allowed = allowed;
  reason = why;
  required_headroom = required;
  available_headroom = cell_headroom cell;
}

unfoldable pub evaluate_failover :
    RemoteCell → (traffic margin : ℕ) → (requires_write_authority : Bool) → FailoverResult
evaluate_failover cell traffic margin requires_write_authority =
    let required = pos (with_margin traffic margin) in
    if not cell.gateway_healthy
    then failover_result cell required false gateway_unhealthy
    else if not cell.identity_healthy
    then failover_result cell required false identity_path_unhealthy
    else if not cell.data_fresh
    then failover_result cell required false data_not_fresh
    else if requires_write_authority && not cell.write_authority
    then failover_result cell required false write_authority_not_fenced
    else if ltb_ℤ (cell_headroom cell) required
    then failover_result cell required false insufficient_headroom
    else failover_result cell required true safe_to_shift

unfoldable pub retry_attempts : (original_requests budget : ℕ) → Result MeshError ℕ
retry_attempts original_requests budget = do
  raise_if (ltb 100 budget) bad_retry_budget
  ok (original_requests + share_of original_requests budget)
