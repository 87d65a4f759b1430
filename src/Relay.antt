-- ===== src/Relay.antt =====
-- src/relay.rs: the store-and-forward receiver of callbacks. A text is here the list of its bytes.
-- The two tables are lists; `id` is an AUTOINCREMENT key, so the store keeps the last one given. The
-- time of a row and the JSON of a body go through as they are, so a row has only its body's text.
-- Faults of the database are left out.
pub mod Queue
pub mod Delivery
mod Tests
use bsv_wallet_cli.Prelude.{
  ℕ, suc, Option, none, some, Bool, true, false, ◌&&◌, ◌||◌, not, List, [], ◌∷◌, ◌++◌, ◌==◌, ltb,
  leb, if◌then◌else◌, any, is_empty, length, select, take, is_some,
}
use bsv_wallet_cli.Prelude.Text.{Text, codes, text_eq, strip_prefix}

pub record Payload : Type 0 where
  pub id : ℕ
  pub token : Text
  pub body : Text

pub record Relay : Type 0 where
  pub tokens : List Text
  pub payloads : List Payload
  pub last_id : ℕ
  pub admin_token : Option Text
  pub require_register : Bool

pub data Reply : Type 0 where
  no_token unknown_token too_large register_disabled unauthorized weak_token done : Reply
  items : List (ℕ × Text) → Reply

-- The two headers that are read, where they are there as text.
pub record Headers : Type 0 where
  pub authorization : Option Text
  pub x_callback_token : Option Text

not_empty : Option Text → Option Text
not_empty none = none
not_empty (some t) = if is_empty t then none else some t

unfoldable pub or_else : Option Text → Option Text → Option Text
or_else (some t) rest = some t
or_else none rest = rest

unfoldable pub bearer : Option Text → Option Text
bearer none = none
bearer (some auth) = strip_prefix (codes "Bearer ") auth

unfoldable pub extract_callback_token : Headers → Option Text
unfolding not_empty or_else bearer
extract_callback_token h =
    or_else (not_empty (bearer h.authorization)) (not_empty h.x_callback_token)

unfoldable pub token_registered : Relay → Text → Bool
token_registered r token = any (λ t. text_eq t token) r.tokens

-- `INSERT OR IGNORE`.
unfoldable pub register_token : Relay → Text → Relay
unfolding token_registered
register_token r token =
    if token_registered r token then r else record r { tokens = r.tokens ++ token ∷ [] }

abbrev pub max_body : ℕ
max_body = 1000000

pub queue : Relay → Text → Text → Relay
queue r token body = record r {
  payloads = r.payloads ++ record { id = suc r.last_id; token = token; body = body } ∷ [];
  last_id = suc r.last_id;
}

callback_for : Relay → Text → Option Text → Relay × Reply
unfolding queue
callback_for r body none = (r, no_token)
callback_for r body (some token) =
    if not (token_registered r token)
    then (r, unknown_token)
    else if ltb max_body (length body)
    then (r, too_large)
    else (queue r token body, done)

unfoldable pub arc_callback : Relay → Headers → Text → Relay × Reply
unfolding callback_for
arc_callback r headers body = callback_for r body (extract_callback_token headers)

abbrev pub is_acked : Text → ℕ → Payload → Bool
is_acked token ack p = text_eq p.token token && leb p.id ack

unfoldable pub delete_acked : Relay → Text → Option ℕ → Relay
delete_acked r token none = r
delete_acked r token (some ack) = record r {
  payloads = select (λ p. not (is_acked token ack p)) r.payloads;
}

abbrev pub is_due : Text → ℕ → Payload → Bool
is_due token after p = text_eq p.token token && ltb after p.id

abbrev pub page_size : ℕ
page_size = 100

-- `ORDER BY id LIMIT 100`: the table keeps the rows in the order of their keys.
unfoldable pub due : Relay → Text → ℕ → List Payload
due r token after = take page_size (select (is_due token after) r.payloads)

unfoldable pub shown : List Payload → List (ℕ × Text)
shown [] = []
shown (p ∷ ps) = (p.id, p.body) ∷ shown ps

unfoldable pub drain : Relay → Text → ℕ → Option ℕ → Relay × Reply
unfolding delete_acked shown
drain r token after ack =
    let r' = delete_acked r token ack in (r', items (shown (due r' token after)))

unfoldable pub pull : Relay → Text → ℕ → Option ℕ → Relay × Reply
unfolding drain
pull r token after ack =
    if is_empty token
    then (r, no_token)
    else if token_registered r token
    then drain r token after ack
    else if not r.require_register
    then drain (register_token r token) token after ack
    else (r, unknown_token)

abbrev is_admin : Text → Option Text → Bool
is_admin admin none = false
is_admin admin (some t) = text_eq t admin

register_with : Relay → Headers → Text → Option Text → Relay × Reply
unfolding bearer
register_with r headers token none = (r, register_disabled)
register_with r headers token (some admin) =
    if not (is_admin admin (bearer headers.authorization))
    then (r, unauthorized)
    else if ltb (length token) 16
    then (r, weak_token)
    else (register_token r token, done)

unfoldable pub register : Relay → Headers → Text → Relay × Reply
unfolding register_with
register r headers token = register_with r headers token r.admin_token

pub data Request : Type 0 where
  callback : Headers → Text → Request
  pull_request : Text → ℕ → Option ℕ → Request
  register_request : Headers → Text → Request

unfoldable pub handle : Relay → Request → Relay × Reply
handle r (callback headers body) = arc_callback r headers body
handle r (pull_request token after ack) = pull r token after ack
handle r (register_request headers token) = register r headers token

-- The relay after requests in the order in which the database takes them.
unfoldable pub serve : Relay → List Request → Relay
serve r [] = r
serve r (q ∷ qs) = serve (handle r q).0 qs
