-- ===== src/Tests/Conversations.antt =====
-- A conversation with a thought and a tool, converted.
use schroedinger_sync.Base.{◌≡◌, refl, false, [], ◌∷◌, Bytes, ascii, ◌=?◌}
use schroedinger_sync.Text.Search.{has_prefix, contains, replace_all, join}
use schroedinger_sync.Text.Runes.{trunc, trim_space}
use schroedinger_sync.Json.Decode.{unmarshal, slice}
use schroedinger_sync.Api.{FullConv}
use schroedinger_sync.Api.Decode.{conversation}
use schroedinger_sync.Markdown.{
  conv_to_markdown, render, conv_header, conv_title, one_line, is_no_conversation, message_section,
  extract_text, block_part, raw_text, decode_string,
}

abbrev raw : Bytes
raw =
    ascii
      "{\"name\":\"A\",\"created_at\":\"c\",\"updated_at\":\"u\",\"model\":\"m\",\"chat_messages\":[{\"sender\":\"human\",\"created_at\":\"t\",\"text\":\"hi\"},{\"sender\":\"assistant\",\"created_at\":\"t\",\"content\":[{\"type\":\"tool_use\",\"name\":\"ls\",\"input\":[1]},{\"type\":\"thinking\",\"thinking\":\"deep\"}]}]}"

abbrev talk : FullConv
talk = record {
  name = ascii "A";
  created_at = ascii "c";
  updated_at = ascii "u";
  model = ascii "m";
  chat_messages =
      record { sender = ascii "human"; created_at = ascii "t"; text = ascii "hi"; content = [] }
      ∷ record {
        sender = ascii "assistant";
        created_at = ascii "t";
        text = [];
        content =
            record {
              kind = ascii "tool_use";
              text = [];
              name = ascii "ls";
              input = ascii "[1]";
              content = [];
            }
            ∷ record { kind = ascii "thinking"; text = []; name = []; input = []; content = [] }
            ∷ [];
      }
      ∷ [];
}

-- A field of a block that `contentBlock` does not name is left out.
dropped_thought : contains (conv_to_markdown raw) (ascii "deep") ≡ false
unfolding conv_to_markdown conversation render conv_header conv_title one_line is_no_conversation
    trunc replace_all unmarshal slice ◌=?◌ message_section extract_text block_part raw_text join
    decode_string contains has_prefix trim_space
dropped_thought = refl
