-- ===== src/Gateway/Prepare/Translate.antt =====
-- internal/gateway/translate.go: toOpenAI, over fields that were validated. Message contents are
-- strings then, which flattenContent leaves as they are. The text of a float64 is a parameter.
use osanwe.Prelude.{ℕ, true, Option, none, some, List, [], ◌∷◌, ◌++◌}
use osanwe.Prelude.Text.{codes}
use osanwe.Prelude.Table.{find}
use osanwe.Gateway.Json.Tree.{
  Json, null, boolean, number, string, array, object, Items, no_items, item, no_members, member,
}
use osanwe.Gateway.Prepare.Body.{Fields, fields_of}

-- A field, or null, as json.Marshal writes an absent raw message.
unfoldable pub or_null : Option Json → Json
or_null none = null
or_null (some v) = v

-- A chatMessage as it is written: role and then content.
unfoldable pub chat_message : Json → Json → Json
chat_message role content =
    object (member (codes "role") role (member (codes "content") content no_members))

unfoldable pub to_chat : Json → Json
unfolding or_null
to_chat (object ms) =
    let message = fields_of ms [] in
    chat_message (or_null (find (codes "role") message)) (or_null (find (codes "content") message))
to_chat v = v

unfoldable pub map_items : (Json → Json) → Items → Items
map_items f no_items = no_items
map_items f (item v items) = item (f v) (map_items f items)

unfoldable pub items_of : Option Json → Items
items_of (some (array items)) = items
items_of _ = no_items

-- The system prompt becomes the first message.
unfoldable pub with_system : Option Json → Items → Items
with_system none items = items
with_system (some prompt) items = item (chat_message (string (codes "system")) prompt) items

unfoldable pub chat_items : Fields → Items
unfolding with_system items_of to_chat map_items
chat_items fields =
    with_system (find (codes "system") fields)
      (map_items to_chat (items_of (find (codes "messages") fields)))

unfoldable pub field : List ℕ → Option Json → Fields
field name none = []
field name (some v) = (name, v) ∷ []

unfoldable pub stream_field : Option Json → Fields
stream_field (some (boolean true)) = (codes "stream", boolean true) ∷ []
stream_field _ = []

unfoldable pub float_field : (List ℕ → List ℕ) → List ℕ → Option Json → Fields
float_field float_text name (some (number literal)) = (name, number (float_text literal)) ∷ []
float_field float_text name _ = []

unfoldable pub stop_field : Option Json → Fields
stop_field (some (array (item v items))) = (codes "stop", array (item v items)) ∷ []
stop_field _ = []

-- toOpenAI: the path and the fields of the new body.
unfoldable pub to_openai : (List ℕ → List ℕ) → Fields → List ℕ × Fields
unfolding chat_items field stream_field float_field stop_field
to_openai float_text fields = (
  codes "/v1/chat/completions",
  field (codes "model") (find (codes "model") fields)
      ++ ((codes "messages", array (chat_items fields))
          ∷ (field (codes "max_tokens") (find (codes "max_tokens") fields)
              ++ (stream_field (find (codes "stream") fields)
                  ++ (float_field float_text (codes "temperature")
                        (find (codes "temperature") fields)
                      ++ (float_field float_text (codes "top_p") (find (codes "top_p") fields)
                          ++ stop_field (find (codes "stop_sequences") fields)))))),
)
