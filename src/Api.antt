-- ===== src/Api.antt =====
-- cdp.go and surfaces.go: what the claude.ai API hands over, as the program's structs hold it.
pub mod Decode
use schroedinger_sync.Base.{List, Bytes}

-- `convSummary`
pub record ConvSummary : Type 0 where
  pub uuid : Bytes
  pub name : Bytes
  pub created_at : Bytes
  pub updated_at : Bytes

-- `contentBlock`; `input` and `content` are the raw JSON, empty if the key is missing.
pub record ContentBlock : Type 0 where
  pub kind : Bytes
  pub text : Bytes
  pub name : Bytes
  pub input : Bytes
  pub content : Bytes

-- `message`
pub record Message : Type 0 where
  pub sender : Bytes
  pub created_at : Bytes
  pub text : Bytes
  pub content : List ContentBlock

-- `fullConv`
pub record FullConv : Type 0 where
  pub name : Bytes
  pub created_at : Bytes
  pub updated_at : Bytes
  pub model : Bytes
  pub chat_messages : List Message

-- `projectSummary`
pub record ProjectSummary : Type 0 where
  pub uuid : Bytes
  pub name : Bytes
  pub description : Bytes
  pub created_at : Bytes
  pub updated_at : Bytes

-- `projectDoc`
pub record ProjectDoc : Type 0 where
  pub uuid : Bytes
  pub file_name : Bytes
  pub content : Bytes
  pub created_at : Bytes
