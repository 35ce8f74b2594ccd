-- ===== src/Module/Envelope.antt =====
-- internal/module/snapshot.go: the versioned envelope around a module's snapshot. encoding/json is
-- the environment: how it writes a payload and an envelope, and how it reads an envelope.
use claude_mnemonic_plus.Prelude.{
  ℕ, ◌<◌, ◌==◌, ◌≡◌, Option, none, some, ℤ, ltb_int, arith, if◌then◌else◌,
}

-- SnapshotEnvelope
pub record SnapshotEnvelope (Raw : Type 0) : Type 0 where
  pub version : ℤ
  pub contents : Raw

pub record Json (Payload Raw Bytes : Type 0) : Type 0 where
  pub marshal_payload : Payload → Option Raw
  pub marshal_envelope : SnapshotEnvelope Raw → Option Bytes
  pub unmarshal_envelope : Bytes → Option (SnapshotEnvelope Raw)
  pub size : Bytes → ℕ

-- What UnmarshalSnapshot returns: the data, if any, with the version, or an error.
pub data Unmarshalled (Raw : Type 0) : Type 0 where
  first_boot : Unmarshalled Raw
  contents_of : Raw → ℤ → Unmarshalled Raw
  bad_json : Unmarshalled Raw
  err_unsupported_version : ℤ → Unmarshalled Raw

module _ {Payload Raw Bytes : Type 0} (json : Json Payload Raw Bytes) where
  -- MarshalSnapshot, `none` for an error.
  unfoldable pub marshal_snapshot : ℤ → Payload → Option Bytes
  marshal_snapshot version payload = elim (json.marshal_payload payload) [
    | none ↦ none
    | some raw ↦ json.marshal_envelope (record { version = version; contents = raw })
  ]

  -- UnmarshalSnapshot
  unfoldable pub unmarshal_snapshot : Bytes → ℤ → Unmarshalled Raw
  unmarshal_snapshot b max_supported =
      if json.size b == 0 then first_boot else elim (json.unmarshal_envelope b) [
        | none ↦ bad_json
        | some env ↦
            if ltb_int max_supported env.version
            then err_unsupported_version env.version
            else contents_of env.contents env.version
      ]

  -- What encoding/json promises of an envelope that it wrote: the text is not empty and is read
  -- back as the same envelope.
  pub record ReadsBack : Type 0 where
    pub nonempty :
        (env : SnapshotEnvelope Raw) (b : Bytes)
        → json.marshal_envelope env ≡ some b
        → 0 < json.size b
    pub same_envelope :
        (env : SnapshotEnvelope Raw) (b : Bytes)
        → json.marshal_envelope env ≡ some b
        → json.unmarshal_envelope b ≡ some env

  -- If encoding/json reads back the envelopes that it writes, UnmarshalSnapshot of what
  -- MarshalSnapshot wrote gives the JSON of the payload and the version it was written with,
  -- unless that exceeds the version supported: then it gives the unsupported-version error with
  -- the version.
  pub unmarshal_snapshot-marshal_snapshot :
      (version max_supported : ℤ) (payload : Payload) (raw : Raw) (b : Bytes)
      → ReadsBack
      → json.marshal_payload payload ≡ some raw
      → marshal_snapshot version payload ≡ some b
      → unmarshal_snapshot b max_supported ≡ (
          if ltb_int max_supported version
          then err_unsupported_version version
          else contents_of raw version)
  unfolding marshal_snapshot unmarshal_snapshot
  unmarshal_snapshot-marshal_snapshot version max_supported payload raw b reads p m =
      let env : SnapshotEnvelope Raw = record { version = version; contents = raw } in
      let wrote : json.marshal_envelope env ≡ some b = ground arith in
      let n = reads.nonempty env b wrote in let e = reads.same_envelope env b wrote in ground arith
