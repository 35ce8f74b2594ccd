-- ===== src/Transcript/Reader.antt =====
-- What ParseSessionReader of internal/sessions/parser.go returns.
use claude_mnemonic_plus.Prelude.{
  ◌≡◌, ◌≢◌, refl, sym, ap, ◌∙◌, true, some, List, [], ◌∷◌, ◌++◌, append-nil, map, length,
  length-append, dec_str, arith, Option-cases, inl, inr,
}
use claude_mnemonic_plus.Transcript.{
  SessionLine, Line, empty_line, malformed, parsed, Exchange, Header, Talk, join, dedupe_strings,
  flush_exchange, assistant_line, talk_line, note_header, parse_lines, start, parse_session_reader,
}
use claude_mnemonic_plus.Transcript.Exchanges.{
  well_formed, conversations, exchange_of, completed, Ready, user_line, assistant_line_lem,
  other_line, talk_line_user, exchanges-flush_exchange,
}

unfoldable talk_lines : List SessionLine → Talk → Talk
talk_lines [] t = t
talk_lines (l ∷ ls) t = talk_lines ls (talk_line l t)

conversations_other :
    (l : SessionLine) (ls : List SessionLine)
    → l.line_type ≢ "user"
    → conversations (l ∷ ls) ≡ conversations ls
unfolding conversations
conversations_other l ls ne = ground arith

talk_line-Ready : (l : SessionLine) (t : Talk) → Ready t → Ready (talk_line l t)
unfolding talk_line assistant_line
talk_line-Ready l t ready h = elim (dec_str l.line_type "user") [
  | yes u ↦ let e = talk_line_user l t u in absurd (ground arith)
  | no nu ↦ elim (dec_str l.line_type "assistant") [
    | yes a ↦ elim (Option-cases t.pending_user) [
      | inl p ↦ let (x, y) = ready p in (ground arith, ground arith)
      | inr (u, p) ↦ absurd (ground arith)
    ]
    | no na ↦
        let same : talk_line l t ≡ t = ground arith in
        let (x, y) = ready (ap (λ z. z.pending_user) (sym same) ∙ h) in
        (ap (λ z. z.assistant_texts) same ∙ x, ap (λ z. z.assistant_tools) same ∙ y)
  ]
]

exchanges-talk_lines :
    (ls : List SessionLine) (t : Talk)
    → Ready t
    → (flush_exchange (talk_lines ls t)).exchanges
      ≡ (t.exchanges ++ completed t ls t.pending_user) ++ map exchange_of (conversations ls)
unfolding talk_lines conversations
exchanges-talk_lines [] t ready =
    exchanges-flush_exchange t ∙ sym (append-nil (t.exchanges ++ completed t [] t.pending_user))
exchanges-talk_lines (l ∷ ls) t ready =
    exchanges-talk_lines ls (talk_line l t) (talk_line-Ready l t ready)
    ∙ elim (dec_str l.line_type "user") [
      | yes u ↦ user_line l ls t ready u
      | no nu ↦
          let conv = conversations_other l ls nu in
          let rest = map exchange_of (conversations ls) in
          elim (dec_str l.line_type "assistant") [
            | yes a ↦
                ap (λ c. c ++ rest) (assistant_line_lem l ls t nu a)
                ∙ ap
                    (λ c. (t.exchanges ++ completed t (l ∷ ls) t.pending_user) ++ map exchange_of c)
                    (sym conv)
            | no na ↦
                ap (λ c. c ++ rest) (other_line l ls t nu na)
                ∙ ap
                    (λ c. (t.exchanges ++ completed t (l ∷ ls) t.pending_user) ++ map exchange_of c)
                    (sym conv)
          ]
    ]

count-flush_exchange :
    (t : Talk)
    → t.exchange_count ≡ length t.exchanges
    → (flush_exchange t).exchange_count ≡ length (flush_exchange t).exchanges
unfolding flush_exchange
count-flush_exchange t h = elim (Option-cases t.pending_user) [
  | inl e ↦ ground arith
  | inr ((text, time), e) ↦
      let x : Exchange = record {
        user_text = text;
        assistant_text = join t.assistant_texts;
        tools_used = dedupe_strings t.assistant_tools;
        timestamp = time;
      } in
      ground (arith, length-append t.exchanges (x ∷ []))
]

count-talk_line :
    (l : SessionLine) (t : Talk)
    → t.exchange_count ≡ length t.exchanges
    → (talk_line l t).exchange_count ≡ length (talk_line l t).exchanges
unfolding talk_line assistant_line
count-talk_line l t h = elim (dec_str l.line_type "user") [
  | yes u ↦
      let e = talk_line_user l t u in
      ap (λ x. x.exchange_count) e ∙ count-flush_exchange t h ∙ sym (ap (λ x. length x.exchanges) e)
  | no nu ↦ elim (Option-cases t.pending_user) [ inl p ↦ ground arith | inr (u, p) ↦ ground arith ]
]

count-talk_lines :
    (ls : List SessionLine) (t : Talk)
    → t.exchange_count ≡ length t.exchanges
    → (flush_exchange (talk_lines ls t)).exchange_count
      ≡ length (flush_exchange (talk_lines ls t)).exchanges
unfolding talk_lines
count-talk_lines [] t h = count-flush_exchange t h
count-talk_lines (l ∷ ls) t h = count-talk_lines ls (talk_line l t) (count-talk_line l t h)

parse_lines-talk_lines :
    (ls : List Line) (h : Header) (t : Talk)
    → (parse_lines ls (h, t)).1 ≡ talk_lines (well_formed ls) t
unfolding parse_lines talk_lines well_formed
parse_lines-talk_lines [] h t = refl
parse_lines-talk_lines (empty_line ∷ ls) h t = parse_lines-talk_lines ls h t
parse_lines-talk_lines (malformed ∷ ls) h t = parse_lines-talk_lines ls h t
parse_lines-talk_lines (parsed l ∷ ls) h t =
    parse_lines-talk_lines ls (note_header l h) (talk_line l t)

-- If the scanner ends without an error, ParseSessionReader returns one exchange for each user
-- line, in order, with the texts and the distinct tools of the assistant lines up to the next
-- user line, whatever other or malformed lines stand between, and its ExchangeCount is their
-- number.
pub parse_session_reader-conversations :
    (ls : List Line)
    → (s : Header × Talk) × (parse_session_reader true ls ≡ some s)
      × (s.1.exchanges ≡ map exchange_of (conversations (well_formed ls)))
      × (s.1.exchange_count ≡ length s.1.exchanges)
unfolding parse_session_reader completed
parse_session_reader-conversations ls =
    let same = parse_lines-talk_lines ls start.0 start.1 in
    let lines = well_formed ls in
    (
      ((parse_lines ls start).0, flush_exchange (parse_lines ls start).1),
      refl,
      ap (λ t. (flush_exchange t).exchanges) same
          ∙ exchanges-talk_lines lines start.1 (λ e. (refl, refl)),
      ap (λ t. (flush_exchange t).exchange_count) same
          ∙ count-talk_lines lines start.1 refl
          ∙ sym (ap (λ t. length (flush_exchange t).exchanges) same),
    )
