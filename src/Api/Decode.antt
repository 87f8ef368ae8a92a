-- ===== src/Api/Decode.antt =====
-- The JSON tags of the structs of cdp.go and surfaces.go.
use schroedinger_sync.Base.{Option, List, [], Bytes, ascii, if◌then◌else◌}
use schroedinger_sync.Json.{Value}
use schroedinger_sync.Json.Decode.{
  Decoded, well, text_into, struct, slice, list_into, unmarshal, names,
}
use schroedinger_sync.Api.{ConvSummary, ContentBlock, Message, FullConv, ProjectSummary, ProjectDoc}

summary_field : Bytes → Bytes → Value → ConvSummary → Decoded ConvSummary
unfolding names text_into
summary_field k raw v c =
    if names (ascii "uuid") k
    then text_into (λ t. record c { uuid = t }) c v
    else if names (ascii "name") k
    then text_into (λ t. record c { name = t }) c v
    else if names (ascii "created_at") k
    then text_into (λ t. record c { created_at = t }) c v
    else if names (ascii "updated_at") k
    then text_into (λ t. record c { updated_at = t }) c v
    else well c

unfoldable pub decode_summary : Value → Decoded ConvSummary
unfolding summary_field struct
decode_summary =
    struct (record { uuid = []; name = []; created_at = []; updated_at = [] }) summary_field

block_field : Bytes → Bytes → Value → ContentBlock → Decoded ContentBlock
unfolding names text_into
block_field k raw v b =
    if names (ascii "type") k
    then text_into (λ t. record b { kind = t }) b v
    else if names (ascii "text") k
    then text_into (λ t. record b { text = t }) b v
    else if names (ascii "name") k
    then text_into (λ t. record b { name = t }) b v
    else if names (ascii "input") k
    then well (record b { input = raw })
    else if names (ascii "content") k
    then well (record b { content = raw })
    else well b

decode_block : Value → Decoded ContentBlock
unfolding block_field struct
decode_block =
    struct (record { kind = []; text = []; name = []; input = []; content = [] }) block_field

message_field : Bytes → Bytes → Value → Message → Decoded Message
unfolding names text_into decode_block slice
message_field k raw v m =
    if names (ascii "sender") k
    then text_into (λ t. record m { sender = t }) m v
    else if names (ascii "created_at") k
    then text_into (λ t. record m { created_at = t }) m v
    else if names (ascii "text") k
    then text_into (λ t. record m { text = t }) m v
    else if names (ascii "content") k
    then list_into (λ bs. record m { content = bs }) (slice decode_block v)
    else well m

decode_message : Value → Decoded Message
unfolding message_field struct
decode_message =
    struct (record { sender = []; created_at = []; text = []; content = [] }) message_field

conv_field : Bytes → Bytes → Value → FullConv → Decoded FullConv
unfolding names text_into decode_message slice
conv_field k raw v c =
    if names (ascii "name") k
    then text_into (λ t. record c { name = t }) c v
    else if names (ascii "created_at") k
    then text_into (λ t. record c { created_at = t }) c v
    else if names (ascii "updated_at") k
    then text_into (λ t. record c { updated_at = t }) c v
    else if names (ascii "model") k
    then text_into (λ t. record c { model = t }) c v
    else if names (ascii "chat_messages") k
    then list_into (λ ms. record c { chat_messages = ms }) (slice decode_message v)
    else well c

unfoldable pub decode_conv : Value → Decoded FullConv
unfolding conv_field struct
decode_conv =
    struct (record { name = []; created_at = []; updated_at = []; model = []; chat_messages = [] })
      conv_field

project_field : Bytes → Bytes → Value → ProjectSummary → Decoded ProjectSummary
unfolding names text_into
project_field k raw v p =
    if names (ascii "uuid") k
    then text_into (λ t. record p { uuid = t }) p v
    else if names (ascii "name") k
    then text_into (λ t. record p { name = t }) p v
    else if names (ascii "description") k
    then text_into (λ t. record p { description = t }) p v
    else if names (ascii "created_at") k
    then text_into (λ t. record p { created_at = t }) p v
    else if names (ascii "updated_at") k
    then text_into (λ t. record p { updated_at = t }) p v
    else well p

unfoldable pub decode_project : Value → Decoded ProjectSummary
unfolding project_field struct
decode_project =
    struct (record { uuid = []; name = []; description = []; created_at = []; updated_at = [] })
      project_field

doc_field : Bytes → Bytes → Value → ProjectDoc → Decoded ProjectDoc
unfolding names text_into
doc_field k raw v d =
    if names (ascii "uuid") k
    then text_into (λ t. record d { uuid = t }) d v
    else if names (ascii "file_name") k
    then text_into (λ t. record d { file_name = t }) d v
    else if names (ascii "content") k
    then text_into (λ t. record d { content = t }) d v
    else if names (ascii "created_at") k
    then text_into (λ t. record d { created_at = t }) d v
    else well d

unfoldable pub decode_doc : Value → Decoded ProjectDoc
unfolding doc_field struct
decode_doc = struct (record { uuid = []; file_name = []; content = []; created_at = [] }) doc_field

-- A struct with one string field: `{uuid}` of an organization, `{memory}`, `{text}`.
single_field : Bytes → Bytes → Bytes → Value → Bytes → Decoded Bytes
unfolding names text_into
single_field name k raw v old = if names name k then text_into (λ t. t) old v else well old

unfoldable pub decode_single : Bytes → Value → Decoded Bytes
unfolding single_field struct
decode_single name = struct [] (single_field name)

unfoldable pub summaries : Bytes → Option (List ConvSummary)
unfolding unmarshal slice decode_summary
summaries = unmarshal (slice decode_summary)

unfoldable pub conversation : Bytes → Option FullConv
unfolding unmarshal decode_conv
conversation = unmarshal decode_conv

unfoldable pub projects : Bytes → Option (List ProjectSummary)
unfolding unmarshal slice decode_project
projects = unmarshal (slice decode_project)

unfoldable pub docs : Bytes → Option (List ProjectDoc)
unfolding unmarshal slice decode_doc
docs = unmarshal (slice decode_doc)

unfoldable pub organizations : Bytes → Option (List Bytes)
unfolding unmarshal slice decode_single
organizations = unmarshal (slice (decode_single (ascii "uuid")))

unfoldable pub memory_blob : Bytes → Option Bytes
unfolding unmarshal decode_single
memory_blob = unmarshal (decode_single (ascii "memory"))
