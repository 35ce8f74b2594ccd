-- ===== src/Transcript/Tests.antt =====
-- A recorded session, and the theorem at it.
use claude_mnemonic_plus.Prelude.{
  ℕ, ◌≡◌, refl, String, true, Option, none, some, List, [], ◌∷◌, map, length, lookup, insert,
  dec_str, Bool-cases,
}
use claude_mnemonic_plus.Transcript.{
  ContentItem, Content, Line, empty_line, malformed, parsed, Header, Talk, join, has_string, dedupe,
  dedupe_strings, text_items, extract_text_items, tool_items, extract_tool_names, or_zero,
  count_tools, flush_exchange, assistant_line, talk_line, or_text, or_time, note_header,
  parse_lines, parse_session_reader,
}
use claude_mnemonic_plus.Transcript.Exchanges.{well_formed, conversations, exchange_of}
use claude_mnemonic_plus.Transcript.Reader.{parse_session_reader-conversations}

program : Unit {0}
unfolding join has_string dedupe dedupe_strings text_items extract_text_items tool_items
    extract_tool_names or_zero count_tools flush_exchange assistant_line talk_line or_text or_time
    note_header parse_lines parse_session_reader lookup insert dec_str Bool-cases
program = tt

abbrev plain : String → Content
plain s = record { as_string = some s; as_items = none }

abbrev tool : String → ContentItem
tool n = record { item_type = "tool_use"; text = ""; name = n }

abbrev reply_items : Content
reply_items = record {
  as_string = none;
  as_items =
      some
        (record { item_type = "text"; text = "done"; name = "" } ∷ tool "Edit" ∷ tool "Edit" ∷ []);
}

abbrev line : String → Content → Option ℕ → Line
line kind c time = parsed (record {
  line_type = kind;
  content = c;
  timestamp = time;
  session_id = "s1";
  cwd = "/repo";
  git_branch = "main";
})

abbrev session : List Line
session =
    line "assistant" reply_items (some 1)
    ∷ empty_line
    ∷ line "user" (plain "fix it") (some 2)
    ∷ malformed
    ∷ line "assistant" reply_items none
    ∷ line "user" (plain "thanks") (some 5)
    ∷ []

two_exchanges :
    parse_session_reader true session
    ≡ some (
      record {
        session_id = "s1";
        project_path = "/repo";
        git_branch = "main";
        first_msg_at = some 1;
        last_msg_at = some 5;
      },
      record {
        exchanges =
            record {
              user_text = "fix it";
              assistant_text = "done";
              tools_used = "Edit" ∷ [];
              timestamp = some 2;
            }
            ∷ record {
              user_text = "thanks";
              assistant_text = "";
              tools_used = [];
              timestamp = some 5;
            }
            ∷ [];
        tool_counts = ("Edit", 2) ∷ [];
        exchange_count = 2;
        pending_user = none;
        assistant_texts = [];
        assistant_tools = [];
      },
    )
unfolding program
two_exchanges = refl

parse_session_reader-conversations_example :
    (s : Header × Talk) × (parse_session_reader true session ≡ some s)
    × (s.1.exchanges ≡ map exchange_of (conversations (well_formed session)))
    × (s.1.exchange_count ≡ length s.1.exchanges)
parse_session_reader-conversations_example = parse_session_reader-conversations session
