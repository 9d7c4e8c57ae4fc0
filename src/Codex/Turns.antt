-- ===== src/Codex/Turns.antt =====
-- codex_engine.rs: the projection of a turn into blocks, and the events as they enter the deferred queue.
use portcode.Common.{
  ℕ, Bool, true, false, ◌&&◌, List, [], ◌∷◌, ◌++◌, Option, none, some, if◌then◌else◌, is_some, ◌==◌,
  Text, codes, same, one_of, map_get,
}
use portcode.Wire.{Block}
use portcode.Codex.Json.{Value, null, number, string, object, Fields, end, field}
use portcode.Codex.Params.{
  JsonCodec, encoded_json_len, Incoming, notification, server_request, transport_closed,
}
use portcode.Codex.Queue.{DeferredEvent}

unfoldable pub is_terminal_lifecycle_method : Text → Bool
is_terminal_lifecycle_method method = one_of method (
    codes "turn/completed"
    ∷ codes "item/completed"
    ∷ codes "thread/closed"
    ∷ codes "serverRequest/resolved"
    ∷ [])

module _ {Number : Type 0} (codec : JsonCodec Number) where
  abbrev pub generation_field : ℕ → Fields Number → Value Number
  generation_field generation fs =
      object (field (codes "generation") (number (codec.from_usize generation)) fs)

  -- The value whose encoding is counted.
  abbrev pub counted_value : Incoming Number → Value Number
  counted_value (notification generation method params raw) =
      generation_field generation
        (field (codes "method") (string method) (field (codes "params") params end))
  counted_value (server_request generation id method params raw) = generation_field generation (
      field (codes "id") id
        (field (codes "method") (string method) (field (codes "params") params end)))
  counted_value (transport_closed generation reason) =
      generation_field generation (field (codes "reason") (string reason) end)

  abbrev pub without_raw : Incoming Number → Incoming Number
  without_raw (notification generation method params raw) =
      notification generation method params null
  without_raw (server_request generation id method params raw) =
      server_request generation id method params null
  without_raw (transport_closed generation reason) = transport_closed generation reason

  abbrev pub is_terminal : Incoming Number → Bool
  is_terminal (notification generation method params raw) = is_terminal_lifecycle_method method
  is_terminal (server_request generation id method params raw) = false
  is_terminal (transport_closed generation reason) = true

  unfoldable pub bounded_deferred_incoming : Incoming Number → DeferredEvent (Incoming Number)
  bounded_deferred_incoming incoming = record {
    incoming = without_raw incoming;
    encoded_bytes = encoded_json_len codec (counted_value incoming);
    terminal = is_terminal incoming;
  }

pub record ThreadRoute : Type 0 where
  pub session_id : Text
  pub root_thread_id : Text
  pub is_subagent : Bool
  pub generation : Option ℕ
  pub parent_thread_id : Option Text
  pub launch_turn_id : Option Text

pub data ProjectedItem (Value : Type 0) : Type 0 where
  text : Text → ProjectedItem Value
  tool : (id name : Text) (input : Value) (output : Option (Text × Bool)) → ProjectedItem Value

pub record TurnProjection (Value : Type 0) : Type 0 where
  pub generation : ℕ
  pub session_id : Text
  pub thread_id : Text
  pub turn_id : Text
  pub order : List Text
  pub items : List (Text × ProjectedItem Value)
  pub pending_assistant_snapshot : Option (List (Block Value))

abbrev pub is_generation : ℕ → Option ℕ → Bool
is_generation generation none = false
is_generation generation (some g) = g == generation

module _ {Value : Type 0} where
  unfoldable pub new_projection : ℕ → Text → Text → Text → TurnProjection Value
  new_projection generation session_id thread_id turn_id = record {
    generation = generation;
    session_id = session_id;
    thread_id = thread_id;
    turn_id = turn_id;
    order = [];
    items = [];
    pending_assistant_snapshot = none;
  }

  unfoldable pub ensure_ordered : Text → TurnProjection Value → TurnProjection Value
  ensure_ordered item_id p =
      if is_some (map_get item_id p.items)
      then p
      else record p { order = p.order ++ (item_id ∷ []) }

  unfoldable pub is_owned_by : TurnProjection Value → ℕ → ThreadRoute → Text → Text → Bool
  is_owned_by p generation route thread_id turn_id =
      p.generation == generation
      && same p.session_id route.session_id
      && same p.thread_id thread_id
      && same p.turn_id turn_id
      && is_generation generation route.generation

  abbrev pub result_blocks : Text → Option (Text × Bool) → List (Block Value)
  result_blocks id none = []
  result_blocks id (some (content, is_error)) = Block.tool_result id content is_error ∷ []

  abbrev pub item_blocks : Option (ProjectedItem Value) → List (Block Value)
  item_blocks (some (text t)) = if same t [] then [] else Block.text t ∷ []
  item_blocks (some (tool id name input output)) =
      Block.tool_use id name input ∷ result_blocks id output
  item_blocks none = []

  unfoldable pub blocks_of : List Text → List (Text × ProjectedItem Value) → List (Block Value)
  blocks_of [] items = []
  blocks_of (id ∷ ids) items = item_blocks (map_get id items) ++ blocks_of ids items

  abbrev pub blocks : TurnProjection Value → List (Block Value)
  blocks p = blocks_of p.order p.items
