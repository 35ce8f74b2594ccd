-- ===== src/Transcript.antt =====
-- internal/sessions/parser.go: the exchanges of a recorded session. A line is what the scanner,
-- encoding/json and time.Parse make of it; the zero time is `none`.
pub mod Exchanges
pub mod Reader
mod Tests
use claude_mnemonic_plus.Prelude.{
  ℕ, ◌+◌, String, Bool, true, false, Option, none, some, List, [], ◌∷◌, ◌++◌, ite, dec_str, lookup,
  insert, if◌then◌else◌,
}
use Prim.Native.String.{◌++◌ as append_str}

-- contentItem
pub record ContentItem : Type 0 where
  pub item_type : String
  pub text : String
  pub name : String

-- json.RawMessage, as parseContentString and parseContentItems read it.
pub record Content : Type 0 where
  pub as_string : Option String
  pub as_items : Option (List ContentItem)

-- sessionLine, with the result of parseTimestamp.
pub record SessionLine : Type 0 where
  pub line_type : String
  pub content : Content
  pub timestamp : Option ℕ
  pub session_id : String
  pub cwd : String
  pub git_branch : String

-- A line of the file: empty, malformed, or parsed.
pub data Line : Type 0 where
  empty_line : Line
  malformed : Line
  parsed : SessionLine → Line

-- Exchange
pub record Exchange : Type 0 where
  pub user_text : String
  pub assistant_text : String
  pub tools_used : List String
  pub timestamp : Option ℕ

-- The part of SessionMeta that every line can set.
pub record Header : Type 0 where
  pub session_id : String
  pub project_path : String
  pub git_branch : String
  pub first_msg_at : Option ℕ
  pub last_msg_at : Option ℕ

-- The pending user message: its text and time.
abbrev pub PendingUser : Type 0
PendingUser = String × Option ℕ

-- The rest of SessionMeta, with the variables of ParseSessionReader.
pub record Talk : Type 0 where
  pub exchanges : List Exchange
  pub tool_counts : List (String × ℕ)
  pub exchange_count : ℕ
  pub pending_user : Option PendingUser
  pub assistant_texts : List String
  pub assistant_tools : List String

-- strings.Join(texts, "")
unfoldable pub join : List String → String
join [] = ""
join (t ∷ ts) = append_str t (join ts)

unfoldable pub has_string : String → List String → Bool
has_string s [] = false
has_string s (x ∷ xs) = ite (dec_str x s) true (has_string s xs)

-- The loop of dedupeStrings; `seen` are the values met before.
unfoldable pub dedupe : List String → List String → List String
dedupe seen [] = []
dedupe seen (v ∷ vs) =
    let again = dedupe seen vs in
    let fresh = dedupe (v ∷ seen) vs in if has_string v seen then again else v ∷ fresh

-- dedupeStrings
unfoldable pub dedupe_strings : List String → List String
dedupe_strings vs = dedupe [] vs

-- The loop of extractTextItems.
unfoldable pub text_items : List ContentItem → List String
text_items [] = []
text_items (i ∷ is) =
    let rest = text_items is in ite (dec_str i.item_type "text") (i.text ∷ rest) rest

-- extractTextItems
unfoldable pub extract_text_items : Content → List String
extract_text_items c = elim (c.as_string) [
  | some plain ↦ ite (dec_str plain "") [] (plain ∷ [])
  | none ↦ elim (c.as_items) [ none ↦ [] | some items ↦ text_items items ]
]

-- The loop of extractToolNames.
unfoldable pub tool_items : List ContentItem → List String
tool_items [] = []
tool_items (i ∷ is) =
    let rest = tool_items is in ite (dec_str i.item_type "tool_use") (i.name ∷ rest) rest

-- extractToolNames
unfoldable pub extract_tool_names : Content → List String
extract_tool_names c = elim (c.as_items) [ none ↦ [] | some items ↦ tool_items items ]

unfoldable pub or_zero : Option ℕ → ℕ
or_zero none = 0
or_zero (some n) = n

-- The loop of flushExchange over the tools: `meta.ToolCounts[toolName]++`.
unfoldable pub count_tools : List String → List (String × ℕ) → List (String × ℕ)
count_tools [] counts = counts
count_tools (t ∷ ts) counts =
    ite (dec_str t "") (count_tools ts counts)
      (count_tools ts (insert dec_str t (or_zero (lookup dec_str t counts) + 1) counts))

-- flushExchange
unfoldable pub flush_exchange : Talk → Talk
flush_exchange t = elim (t.pending_user) [
  | none ↦ t
  | some (text, time) ↦ record {
    exchanges =
        t.exchanges
        ++ record {
          user_text = text;
          assistant_text = join t.assistant_texts;
          tools_used = dedupe_strings t.assistant_tools;
          timestamp = time;
        }
          ∷ [];
    tool_counts = count_tools t.assistant_tools t.tool_counts;
    exchange_count = t.exchange_count + 1;
    pending_user = none;
    assistant_texts = [];
    assistant_tools = [];
  }
]

-- The case "assistant" of the switch.
unfoldable pub assistant_line : SessionLine → Talk → Talk
assistant_line l t = elim (t.pending_user) [
  | none ↦ t
  | some u ↦ record t {
    assistant_texts = t.assistant_texts ++ extract_text_items l.content;
    assistant_tools = t.assistant_tools ++ extract_tool_names l.content;
  }
]

-- The switch on a line's type.
unfoldable pub talk_line : SessionLine → Talk → Talk
talk_line l t =
    ite (dec_str l.line_type "user")
      (record (flush_exchange t) {
        pending_user = some (join (extract_text_items l.content), l.timestamp);
      })
      (ite (dec_str l.line_type "assistant") (assistant_line l t) t)

unfoldable pub or_text : String → String → String
or_text s t = ite (dec_str s "") t s

unfoldable pub or_time : Option ℕ → Option ℕ → Option ℕ
or_time none t = t
or_time (some s) t = some s

-- What a line sets before the switch.
unfoldable pub note_header : SessionLine → Header → Header
note_header l h = record {
  session_id = or_text h.session_id l.session_id;
  project_path = or_text h.project_path l.cwd;
  git_branch = or_text h.git_branch l.git_branch;
  first_msg_at = or_time h.first_msg_at l.timestamp;
  last_msg_at = or_time l.timestamp h.last_msg_at;
}

-- The loop of ParseSessionReader.
unfoldable pub parse_lines : List Line → Header × Talk → Header × Talk
parse_lines [] s = s
parse_lines (empty_line ∷ ls) s = parse_lines ls s
parse_lines (malformed ∷ ls) s = parse_lines ls s
parse_lines (parsed l ∷ ls) s = parse_lines ls (note_header l s.0, talk_line l s.1)

abbrev pub start : Header × Talk
start = (
  record {
    session_id = "";
    project_path = "";
    git_branch = "";
    first_msg_at = none;
    last_msg_at = none;
  },
  record {
    exchanges = [];
    tool_counts = [];
    exchange_count = 0;
    pending_user = none;
    assistant_texts = [];
    assistant_tools = [];
  },
)

-- ParseSessionReader; the flag says whether the scanner ends without an error.
unfoldable pub parse_session_reader : Bool → List Line → Option (Header × Talk)
parse_session_reader scanned ls =
    let s = parse_lines ls start in
    let flushed = flush_exchange s.1 in if scanned then some (s.0, flushed) else none
