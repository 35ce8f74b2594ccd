-- ===== src/Transcript/Exchanges.antt =====
-- The exchanges that internal/sessions/parser.go finds, against the messages of the file.
use claude_mnemonic_plus.Prelude.{
  ◌≡◌, ◌≢◌, sym, ap, ◌∙◌, String, Option, none, some, List, [], ◌∷◌, ◌++◌, append-nil, append_assoc,
  map, ite, dec_str, arith, Option-cases, inl, inr,
}
use claude_mnemonic_plus.Transcript.{
  SessionLine, Line, empty_line, malformed, parsed, Exchange, Talk, join, dedupe_strings,
  extract_text_items, extract_tool_names, flush_exchange, assistant_line, talk_line, PendingUser,
}

-- The lines that could be parsed.
unfoldable pub well_formed : List Line → List SessionLine
well_formed [] = []
well_formed (empty_line ∷ ls) = well_formed ls
well_formed (malformed ∷ ls) = well_formed ls
well_formed (parsed l ∷ ls) = l ∷ well_formed ls

-- The assistant's lines before the next user line.
unfoldable pub replies : List SessionLine → List SessionLine
replies [] = []
replies (l ∷ ls) =
    let rest = replies ls in
    ite (dec_str l.line_type "user") [] (ite (dec_str l.line_type "assistant") (l ∷ rest) rest)

-- Every user line, with the assistant's lines that follow it.
unfoldable pub conversations : List SessionLine → List (SessionLine × List SessionLine)
conversations [] = []
conversations (l ∷ ls) =
    let rest = conversations ls in ite (dec_str l.line_type "user") ((l, replies ls) ∷ rest) rest

unfoldable pub all_texts : List SessionLine → List String
all_texts [] = []
all_texts (l ∷ ls) = extract_text_items l.content ++ all_texts ls

unfoldable pub all_tools : List SessionLine → List String
all_tools [] = []
all_tools (l ∷ ls) = extract_tool_names l.content ++ all_tools ls

unfoldable pub exchange_of : SessionLine × List SessionLine → Exchange
exchange_of (u, rs) = record {
  user_text = join (extract_text_items u.content);
  assistant_text = join (all_texts rs);
  tools_used = dedupe_strings (all_tools rs);
  timestamp = u.timestamp;
}

-- The exchange that is pending in a state, completed by the replies to come.
unfoldable pub completed : Talk → List SessionLine → Option PendingUser → List Exchange
completed t ls none = []
completed t ls (some (text, time)) =
    record {
      user_text = text;
      assistant_text = join (t.assistant_texts ++ all_texts (replies ls));
      tools_used = dedupe_strings (t.assistant_tools ++ all_tools (replies ls));
      timestamp = time;
    }
    ∷ []

pub exchanges-flush_exchange :
    (t : Talk) → (flush_exchange t).exchanges ≡ t.exchanges ++ completed t [] t.pending_user
unfolding flush_exchange completed replies all_texts all_tools
exchanges-flush_exchange t = elim (Option-cases t.pending_user) [
  | inl e ↦ ground (arith, append-nil t.exchanges)
  | inr (u, e) ↦ ground (arith, append-nil t.assistant_texts, append-nil t.assistant_tools)
]

-- Without a pending user message nothing of the assistant's is kept.
abbrev pub Ready : Talk → Type 0
Ready t = t.pending_user ≡ none → (t.assistant_texts ≡ []) × (t.assistant_tools ≡ [])

flush_exchange_empty :
    (t : Talk)
    → Ready t
    → ((flush_exchange t).assistant_texts ≡ []) × ((flush_exchange t).assistant_tools ≡ [])
unfolding flush_exchange
flush_exchange_empty t ready = elim (Option-cases t.pending_user) [
  | inl e ↦ let (a, b) = ready e in (ground arith, ground arith)
  | inr (u, e) ↦ (ground arith, ground arith)
]

pub talk_line_user :
    (l : SessionLine) (t : Talk)
    → l.line_type ≡ "user"
    → talk_line l t ≡ record (flush_exchange t) {
      pending_user = some (join (extract_text_items l.content), l.timestamp);
    }
unfolding talk_line
talk_line_user l t e = ground arith

completed_user :
    (l : SessionLine) (ls : List SessionLine) (t : Talk)
    → l.line_type ≡ "user"
    → completed t (l ∷ ls) t.pending_user ≡ completed t [] t.pending_user
unfolding completed replies
completed_user l ls t e = elim (Option-cases t.pending_user) [
  | inl p ↦ ground arith
  | inr (u, p) ↦ ground arith
]

completed_next :
    (l : SessionLine) (ls : List SessionLine) (t : Talk)
    → Ready t
    → l.line_type ≡ "user"
    → completed (talk_line l t) ls (talk_line l t).pending_user ≡ exchange_of (l, replies ls) ∷ []
unfolding completed exchange_of
completed_next l ls t ready e =
    let (a, b) = flush_exchange_empty t ready in
    let u = talk_line_user l t e in ap (λ x. completed x ls x.pending_user) u ∙ ground arith

-- How a line changes what is complete and what is pending.
pub user_line :
    (l : SessionLine) (ls : List SessionLine) (t : Talk)
    → Ready t
    → l.line_type ≡ "user"
    → ((talk_line l t).exchanges ++ completed (talk_line l t) ls (talk_line l t).pending_user)
        ++ map exchange_of (conversations ls)
      ≡ (t.exchanges ++ completed t (l ∷ ls) t.pending_user)
        ++ map exchange_of (conversations (l ∷ ls))
unfolding conversations
user_line l ls t ready e =
    let done : (talk_line l t).exchanges ≡ t.exchanges ++ completed t (l ∷ ls) t.pending_user =
      ap (λ x. x.exchanges) (talk_line_user l t e)
      ∙ exchanges-flush_exchange t
      ∙ ap (λ c. t.exchanges ++ c) (sym (completed_user l ls t e)) in
    let rest = map exchange_of (conversations ls) in
    let conv : conversations (l ∷ ls) ≡ (l, replies ls) ∷ conversations ls = ground arith in
    ap (λ c. ((talk_line l t).exchanges ++ c) ++ rest) (completed_next l ls t ready e)
    ∙ append_assoc (talk_line l t).exchanges (exchange_of (l, replies ls) ∷ []) rest
    ∙ ap (λ x. x ++ exchange_of (l, replies ls) ∷ rest) done
    ∙ ap (λ c. (t.exchanges ++ completed t (l ∷ ls) t.pending_user) ++ map exchange_of c) (sym conv)

pub assistant_line_lem :
    (l : SessionLine) (ls : List SessionLine) (t : Talk)
    → l.line_type ≢ "user"
    → l.line_type ≡ "assistant"
    → (talk_line l t).exchanges ++ completed (talk_line l t) ls (talk_line l t).pending_user
      ≡ t.exchanges ++ completed t (l ∷ ls) t.pending_user
unfolding talk_line assistant_line completed replies all_texts all_tools
assistant_line_lem l ls t ne e = elim (Option-cases t.pending_user) [
  | inl p ↦ ground arith
  | inr (u, p) ↦ ground (
    arith,
    append_assoc t.assistant_texts (extract_text_items l.content) (all_texts (replies ls)),
    append_assoc t.assistant_tools (extract_tool_names l.content) (all_tools (replies ls)),
  )
]

pub other_line :
    (l : SessionLine) (ls : List SessionLine) (t : Talk)
    → l.line_type ≢ "user"
    → l.line_type ≢ "assistant"
    → (talk_line l t).exchanges ++ completed (talk_line l t) ls (talk_line l t).pending_user
      ≡ t.exchanges ++ completed t (l ∷ ls) t.pending_user
unfolding talk_line completed replies
other_line l ls t ne na = elim (Option-cases t.pending_user) [
  | inl p ↦ ground arith
  | inr (u, p) ↦ ground arith
]
