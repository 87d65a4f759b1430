-- ===== src/Ingest/Drained.antt =====
-- Polls of the relay by a wallet, with no callback between them.
use bsv_wallet_cli.Prelude.{
  ℕ, zero, suc, ◌*◌, ◌≤◌, ◌≡◌, refl, ap, sym, subst, ◌∙◌, max, some, true, false, List, [], ◌∷◌,
  arith, is_empty, length, take, drop,
}
use bsv_wallet_cli.Prelude.Text.{Text}
use bsv_wallet_cli.SpendGate.Word.{Json}
use bsv_wallet_cli.Relay.{
  Payload, Relay, pull, pull_request, handle, serve, delete_acked, due, shown, drain, page_size,
  token_registered,
}
use bsv_wallet_cli.Relay.Queue.{IsValid, serve-IsValid}
use bsv_wallet_cli.Ingest.{Toolbox, ingest_arc_payload}
use bsv_wallet_cli.Ingest.Poller.{
  Poller, tick, ticks, take_items, take_item, take_answer, answer_of, items_of, id_or, ingest_item,
}
use bsv_wallet_cli.Ingest.Pages.{
  last_of, last_of-ge, due-drop, due-acked, length-drop, is_nil, waiting,
}

module _ {World Event : Type 0} (toolbox : Toolbox World Event) (json_of : Text → Json) where
  -- The store once these payloads were ingested in turn.
  unfoldable pub ingest_all : List Payload → World → World
  ingest_all [] w = w
  ingest_all (p ∷ ps) w = ingest_all ps (ingest_arc_payload toolbox (json_of p.body) w).0

  ingest_all-split :
      (k : ℕ) (ps : List Payload) (w : World)
      → ingest_all (drop k ps) (ingest_all (take k ps) w) ≡ ingest_all ps w
  unfolding ingest_all
  ingest_all-split zero ps w = refl
  ingest_all-split (suc k) [] w = refl
  ingest_all-split (suc k) (p ∷ ps) w =
      ingest_all-split k ps (ingest_arc_payload toolbox (json_of p.body) w).0

  take_items_lem :
      (ps : List Payload) (a : ℕ) (w : World)
      → take_items toolbox (record { last_id = a; world = w }) (items_of json_of (shown ps))
        ≡ record { last_id = last_of a ps; world = ingest_all ps w }
  unfolding take_items take_item ingest_item items_of shown ingest_all last_of id_or
  take_items_lem [] a w = refl
  take_items_lem (p ∷ ps) a w =
      take_items_lem ps (max a p.id) (ingest_arc_payload toolbox (json_of p.body) w).0

  module _ (token : Text) (solid : is_empty token ≡ false) where
    page : Relay → ℕ → List Payload
    page r a = take page_size (waiting r token a)

    after_tick : Relay → Poller World → Relay × Poller World
    after_tick r p = (
      delete_acked r token (some p.last_id),
      record {
        last_id = last_of p.last_id (page r p.last_id);
        world = ingest_all (page r p.last_id) p.world;
      },
    )

    tick_lem :
        (r : Relay) (p : Poller World)
        → token_registered r token ≡ true
        → tick toolbox json_of token (r, p) ≡ after_tick r p
    unfolding tick pull drain due delete_acked take_answer answer_of after_tick page
    tick_lem r p t =
        rw (solid, t)
          (ap (λ x. (delete_acked r token (some p.last_id), x))
            (ap (λ ps. take_items toolbox p (items_of json_of (shown (take page_size ps))))
                (due-acked token p.last_id p.last_id r.payloads (omega arith))
              ∙ take_items_lem (page r p.last_id) p.last_id p.world))

    pull-IsValid : (r : Relay) (a : ℕ) → IsValid r → IsValid (pull r token a (some a)).0
    unfolding serve handle
    pull-IsValid r a v = serve-IsValid r (pull_request token a (some a) ∷ []) v

    after_tick-IsValid :
        (r : Relay) (p : Poller World)
        → IsValid r
        → token_registered r token ≡ true
        → IsValid (after_tick r p).0
    unfolding after_tick tick
    after_tick-IsValid r p v t =
        subst (λ (s : Relay × Poller World). IsValid s.0) (tick_lem r p t)
          (pull-IsValid r p.last_id v)

    after_tick-waiting :
        (r : Relay) (p : Poller World)
        → IsValid r
        → waiting (after_tick r p).0 token (after_tick r p).1.last_id
          ≡ drop page_size (waiting r token p.last_id)
    unfolding after_tick delete_acked page
    after_tick-waiting r p v =
        due-acked token p.last_id (last_of p.last_id (page r p.last_id)) r.payloads
          (last_of-ge p.last_id (page r p.last_id))
        ∙ due-drop token 0 r.last_id page_size p.last_id r.payloads v.rises

    -- What holds after polls of a poller that began at `p` with the relay `r`.
    abbrev pub Drained : Relay → Poller World → Relay × Poller World → Type 0
    Drained r p s =
        (s.1.world ≡ ingest_all (waiting r token p.last_id) p.world)
        × (waiting s.0 token s.1.last_id ≡ [])

    fewer :
        (n : ℕ) (r : Relay) (p : Poller World)
        → IsValid r
        → length (waiting r token p.last_id) ≤ suc n * page_size
        → length (waiting (after_tick r p).0 token (after_tick r p).1.last_id) ≤ n * page_size
    fewer n r p v h =
        rw (after_tick-waiting r p v)
          (length-drop page_size (waiting r token p.last_id) (n * page_size) (omega arith))

    further :
        (r : Relay) (p : Poller World) (s : Relay × Poller World)
        → IsValid r
        → Drained (after_tick r p).0 (after_tick r p).1 s
        → Drained r p s
    unfolding after_tick page
    further r p s v d = (
      d.0
          ∙ ap (λ ps. ingest_all ps (after_tick r p).1.world) (after_tick-waiting r p v)
          ∙ ingest_all-split page_size (waiting r token p.last_id) p.world,
      d.1,
    )

    -- Where the relay's state is valid, the token is registered and not empty and no callback comes
    -- between, polls of which each takes at most 100 payloads, as many as these need, leave the
    -- wallet's store as ingesting each payload that waited for its token once, in the order of
    -- their keys, leaves it, and then none waits.
    pub ticks-Drained :
        (n : ℕ) (r : Relay) (p : Poller World)
        → IsValid r
        → token_registered r token ≡ true
        → length (waiting r token p.last_id) ≤ n * page_size
        → Drained r p (ticks toolbox json_of token n (r, p))
    unfolding ticks ingest_all
    ticks-Drained zero r p v t h =
        let none_left = is_nil (waiting r token p.last_id) (omega arith) in
        (sym (ap (λ ps. ingest_all ps p.world) none_left), none_left)
    ticks-Drained (suc n) r p v t h =
        subst (λ s. Drained r p (ticks toolbox json_of token n s)) (sym (tick_lem r p t))
          (further r p (ticks toolbox json_of token n (after_tick r p)) v (
            ticks-Drained n (after_tick r p).0 (after_tick r p).1 (after_tick-IsValid r p v t)
              (unfold after_tick delete_acked token_registered in t) (fewer n r p v h)))
