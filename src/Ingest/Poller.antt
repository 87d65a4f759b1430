-- ===== src/Ingest/Poller.antt =====
-- The poller of a relay's queue in src/commands/daemon_tenant.rs. An answer that fails or does not
-- parse is `none`; it is logged and changes nothing. An id is a natural number: the poller's last
-- one starts at 0, and `max` keeps it where an id is below that.
use bsv_wallet_cli.Prelude.{ℕ, zero, suc, max, Option, none, some, List, [], ◌∷◌}
use bsv_wallet_cli.Prelude.Text.{Text}
use bsv_wallet_cli.SpendGate.Word.{Json}
use bsv_wallet_cli.Relay.{Relay, Reply, items, pull}
use bsv_wallet_cli.Ingest.{Toolbox, ingest_arc_payload}

-- An item of the answer: its `id` where it is a number, and its `payload`.
pub record Item : Type 0 where
  pub id : Option ℕ
  pub payload : Option Json

pub record Poller (World : Type 0) : Type 0 where
  pub last_id : ℕ
  pub world : World

unfoldable pub id_or : ℕ → Option ℕ → ℕ
id_or last_id none = last_id
id_or last_id (some id) = id

-- The JSON text of the relay's answer has both fields; a payload's value is what its text reads as.
unfoldable pub items_of : (Text → Json) → List (ℕ × Text) → List Item
items_of json_of [] = []
items_of json_of ((id, body) ∷ rest) =
    record { id = some id; payload = some (json_of body) } ∷ items_of json_of rest

unfoldable pub answer_of : (Text → Json) → Reply → Option (List Item)
answer_of json_of (items found) = some (items_of json_of found)
answer_of json_of _ = none

module _ {World Event : Type 0} (toolbox : Toolbox World Event) where
  unfoldable pub ingest_item : Option Json → World → World
  ingest_item none w = w
  ingest_item (some payload) w = (ingest_arc_payload toolbox payload w).0

  unfoldable pub take_item : Poller World → Item → Poller World
  unfolding ingest_item
  take_item p item = record {
    last_id = max p.last_id (id_or p.last_id item.id);
    world = ingest_item item.payload p.world;
  }

  unfoldable pub take_items : Poller World → List Item → Poller World
  unfolding take_item ingest_item
  take_items p [] = p
  take_items p (item ∷ rest) = take_items (take_item p item) rest

  unfoldable pub take_answer : Poller World → Option (List Item) → Poller World
  take_answer p none = p
  take_answer p (some found) = take_items p found

  -- One tick of the poller with a relay that answers.
  unfoldable pub tick : (Text → Json) → Text → Relay × Poller World → Relay × Poller World
  tick json_of token (r, p) =
      let (r', reply) = pull r token p.last_id (some p.last_id) in
      (r', take_answer p (answer_of json_of reply))

  unfoldable pub ticks : (Text → Json) → Text → ℕ → Relay × Poller World → Relay × Poller World
  ticks json_of token zero s = s
  ticks json_of token (suc n) s = ticks json_of token n (tick json_of token s)
