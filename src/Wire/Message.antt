-- ===== src/Wire/Message.antt =====
-- crates/portcode-sync/src/wire.rs: content blocks, session rows and message rows, and the public
-- types that replace them on the phone channel.
use portcode.Common.{Bool, List, Option, Text, ℤ}
use portcode.Wire.Receipt.{TurnReceipt, PhoneTurnReceipt}

pub data Block (Value : Type 0) : Type 0 where
  text : (text : Text) → Block Value
  tool_use : (id name : Text) (input : Value) → Block Value
  tool_result : (tool_use_id content : Text) (is_error : Bool) → Block Value
  reasoning : (model id encrypted_content : Option Text) (summary : List Value) → Block Value

pub record SessionRow : Type 0 where
  pub id : Text
  pub title : Text
  pub branch : Option Text
  pub workspace : Option Text
  pub model : Option Text
  pub account_profile_id : Option Text
  pub created_at : ℤ
  pub updated_at : ℤ

pub record MessageRow (Value : Type 0) : Type 0 where
  pub id : Text
  pub session_id : Text
  pub seq : ℤ
  pub role : Text
  pub content : List (Block Value)
  pub created_at : ℤ
  pub turn_id : Option Text
  pub receipt : Option TurnReceipt

pub data PhoneBlock (Value : Type 0) : Type 0 where
  text : (text : Text) → PhoneBlock Value
  tool_use : (id name : Text) (input : Value) → PhoneBlock Value
  tool_result : (tool_use_id content : Text) (is_error : Bool) → PhoneBlock Value

pub record PhoneSessionRow : Type 0 where
  pub id : Text
  pub title : Text
  pub branch : Option Text
  pub workspace : Option Text
  pub model : Option Text
  pub created_at : ℤ
  pub updated_at : ℤ

pub record PhoneMessageRow (Value : Type 0) : Type 0 where
  pub id : Text
  pub session_id : Text
  pub seq : ℤ
  pub role : Text
  pub content : List (PhoneBlock Value)
  pub created_at : ℤ
  pub turn_id : Option Text
  pub receipt : Option PhoneTurnReceipt
