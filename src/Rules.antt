-- ===== src/Rules.antt =====
-- What the rules share: the loop over a bucket of configurations, and the address in hex.
pub mod LargeTransfer
pub mod Approval
pub mod OracleUpdate
pub mod Governance
pub mod BridgeTransfer
pub mod MintBurn
mod Tests
use risk_sentinel.Common.{
  Bool, true, false, Option, none, some, List, [], ◌∷◌, ◌++◌, Bytes, codes, ◌≡◌, refl,
  if◌then◌else◌, append_assoc, All, filter_by, Bool-cases, not, ◌&&◌, inl, inr, ltb, ◌||◌,
  append-nil, sym, map, ◌∙◌,
}
use risk_sentinel.Hex.{hex_pairs}
use risk_sentinel.Signal.{Alert, SignalPayload, evm_log, EvmLogEvent}

-- `"0x"` and two lowercase digits a byte.
unfoldable pub address_to_hex : Bytes → Bytes
address_to_hex address = codes "0x" ++ hex_pairs address

-- `std::get_if<EvmLogEvent>(&signal.payload)`
unfoldable pub as_evm : SignalPayload → Option EvmLogEvent
as_evm (evm_log evm) = some evm
as_evm _ = none

-- The guard of the rules on raw logs: `evm->removed || evm->topic_count < 3 || ...`.
unfoldable pub unusable : EvmLogEvent → Bool
unusable evm = evm.removed || ltb evm.topic_count 3 || ltb evm.data_size 32 || evm.truncated

unfoldable pub push : Option Alert → List Alert → List Alert
push none out = out
push (some alert) out = out ++ alert ∷ []

-- `for (const auto &cfg : configs)`: the body makes an alert for `out`, or continues.
unfoldable pub emit_each {ℓ} : {C : Type ℓ} → (C → Option Alert) → List C → List Alert → List Alert
unfolding push
emit_each body [] out = out
emit_each body (cfg ∷ configs) out = emit_each body configs (push (body cfg) out)

-- A loop whose body alerts where `test` holds appends the alerts of the configurations that pass,
-- in their order.
pub emit_each-filter {ℓ} :
    {C : Type ℓ} (body : C → Option Alert) (test : C → Bool) (alert : C → Alert) (P : C → Type 0)
    → ((cfg : C) → P cfg → body cfg ≡ (if test cfg then some (alert cfg) else none))
    → (configs : List C) (out : List Alert) → All P configs
    → emit_each body configs out ≡ out ++ map alert (filter_by test configs)
unfolding emit_each
emit_each-filter body test alert P h [] out all = sym (append-nil out)
emit_each-filter body test alert P h (cfg ∷ configs) out all = elim (Bool-cases (test cfg)) [
  | inl t ↦
      rw
        (h cfg all.0, t, emit_each-filter body test alert P h configs (out ++ alert cfg ∷ []) all.1)
        (append_assoc out (alert cfg ∷ []) (map alert (filter_by test configs)))
  | inr t ↦ rw (h cfg all.0, t) (emit_each-filter body test alert P h configs out all.1)
]

pub filter_by_none {ℓ} : {C : Type ℓ} (configs : List C) → filter_by (λ _. false) configs ≡ []
filter_by_none [] = refl
filter_by_none (cfg ∷ configs) = filter_by_none configs

-- The same behind a guard that returns at once.
pub guarded-filter {ℓ} :
    {C : Type ℓ} (skip : Bool) (test : C → Bool) (alert : C → Alert) (configs : List C)
    (out rest : List Alert)
    → (skip ≡ false → rest ≡ out ++ map alert (filter_by test configs))
    → (if skip then out else rest)
      ≡ out ++ map alert (filter_by (λ cfg. not skip && test cfg) configs)
guarded-filter true test alert configs out rest h =
    rw (filter_by_none configs) (sym (append-nil out))
guarded-filter false test alert configs out rest h = h refl

-- `auto it = config_map.find(key); if (it == config_map.end()) return;`: an absent key has no
-- configuration.
abbrev pub bucket {ℓ} : {C : Type ℓ} → Option (List C) → List C
bucket none = []
bucket (some configs) = configs

unfoldable pub emit_found {ℓ} :
    {C : Type ℓ} → (C → Option Alert) → Option (List C) → List Alert → List Alert
emit_found body none out = out
emit_found body (some configs) out = emit_each body configs out

pub found-filter {ℓ} :
    {C : Type ℓ} (body : C → Option Alert) (test : C → Bool) (alert : C → Alert) (P : C → Type 0)
    → ((cfg : C) → P cfg → body cfg ≡ (if test cfg then some (alert cfg) else none))
    → (found : Option (List C)) (out : List Alert) → All P (bucket found)
    → emit_found body found out ≡ out ++ map alert (filter_by test (bucket found))
unfolding emit_found
found-filter body test alert P h none out all = sym (append-nil out)
found-filter body test alert P h (some configs) out all =
    emit_each-filter body test alert P h configs out all
