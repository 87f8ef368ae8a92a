-- ===== src/Json.antt =====
-- Go's `encoding/json` as the program uses it: reading a text into a value, raw spans included.
-- The nesting limit of 10,000 levels is left out.
pub mod Strings
pub mod Numbers
pub mod Read
pub mod Decode
pub mod Write
pub mod Written
use schroedinger_sync.Base.{Bool, Bytes}

mutual
  pub data Value : Type 0 where
    null : Value
    boolean : Bool → Value
    number : Bytes → Value
    text : Bytes → Value
    array : Items → Value
    object : Members → Value

  -- An element, with the bytes that it was read from.
  pub data Items : Type 0 where
    nil : Items
    item : Bytes → Value → Items → Items

  -- A key, the bytes of its value, and the value.
  pub data Members : Type 0 where
    end : Members
    member : Bytes → Bytes → Value → Members → Members
