-- ===== src/Module/Tests.antt =====
-- Snapshots under an encoding that keeps the envelope as it is, and the theorem at one.
use claude_mnemonic_plus.Prelude.{◌≡◌, ◌<◌, refl, String, Option, none, some, pos, negsuc, arith}
use claude_mnemonic_plus.Module.Envelope.{
  SnapshotEnvelope, Json, first_boot, contents_of, unmarshal_snapshot, ReadsBack,
}

-- The bytes are an envelope, or none for an empty text.
abbrev Text : Type 0
Text = Option (SnapshotEnvelope String)

abbrev json : Json String String Text
json = record {
  marshal_payload = λ p. some p;
  marshal_envelope = λ env. some (some env);
  unmarshal_envelope = λ b. b;
  size = λ b. elim b [ none ↦ 0 | some env ↦ 20 ];
}

json-ReadsBack : ReadsBack json
json-ReadsBack = record {
  nonempty = λ env b h.
      elim b as (λ x. some (some env) ≡ some x → 0 < json.size x) [
        | none ↦ λ q. absurd cc
        | some e ↦ λ q. omega arith
      ]
        h;
  same_envelope = λ env b h. cc h;
}

nothing_yet : unmarshal_snapshot json none (pos 1) ≡ first_boot
unfolding unmarshal_snapshot
nothing_yet = refl

negative_version :
    unmarshal_snapshot json (some (record { version = negsuc 0; contents = "x" })) (pos 1)
    ≡ contents_of "x" (negsuc 0)
unfolding unmarshal_snapshot
negative_version = refl
