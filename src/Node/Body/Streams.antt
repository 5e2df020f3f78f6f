-- ===== src/Node/Body/Streams.antt =====
-- packages/node/src/body.rs: the body stream against the replies of the reader.
use node_reqwest.Prelude.{
  ◌≡◌, ◌≢◌, refl, ap, ◌∙◌, Text, codes, true, Option, none, some, List, [], ◌∷◌, ◌++◌, map,
}
use node_reqwest.Prelude.Outcome.{Result, ok, err}
use node_reqwest.Node.Js.{Js}
use node_reqwest.Node.Body.{
  IoError, ChunkResult, JsBodyReader, Reply, sent, receive, settle, next, unread_by, deliver,
  Streamed, new, into_stream,
}

module _ (js : Js) where
  -- Replies that carry these chunks.
  pub data Carry : List (Reply js) → List Text → Type 0 where
    done : Carry [] []
    more :
        {reply : Reply js} {chunk : Text} {replies : List (Reply js)} {chunks : List Text}
        → sent js reply ≡ some (ok (some chunk))
        → Carry replies chunks
        → Carry (reply ∷ replies) (chunk ∷ chunks)

  -- How a reply that carries no chunk ends the stream.
  abbrev pub last_items : Option ChunkResult → List (Result IoError Text)
  last_items none = err (codes "body reader cancelled") ∷ []
  last_items (some (err e)) = err e ∷ []
  last_items (some (ok none)) = []
  last_items (some (ok (some chunk))) = ok chunk ∷ []

  abbrev pub Final : Option ChunkResult → Type 0
  Final answer = (chunk : Text) → answer ≢ some (ok (some chunk))

  abbrev pub spent : js.Value → JsBodyReader js
  spent reader = record { reader_root = some reader; finished = true }

  stream-settle :
      (reader : js.Value) (reply : Reply js) (later : List (Reply js)) {answer : Option ChunkResult}
      → sent js reply ≡ answer
      → into_stream js (reply ∷ later) (new js reader) ≡ (
          let (result, r) = settle js answer (new js reader) in
          deliver js result r (into_stream js later r) later)
  unfolding into_stream next receive unread_by new
  stream-settle reader reply later e =
      ap
        (λ a.
          let (result, r) = settle js a (new js reader) in
          deliver js result r (into_stream js later r) later)
        e

  ended : js.Value → Option ChunkResult → List (Reply js) → Streamed js
  ended reader answer later = record {
    items = last_items answer;
    ended = true;
    reader = spent reader;
    unread = later;
  }

  deliver-last :
      (reader : js.Value) (later : List (Reply js)) (answer : Option ChunkResult)
      → Final answer
      → (let (result, r) = settle js answer (new js reader) in
          deliver js result r (into_stream js later r) later)
        ≡ ended reader answer later
  unfolding settle deliver new ended
  deliver-last reader later none final = refl
  deliver-last reader later (some (err x)) final = refl
  deliver-last reader later (some (ok none)) final = refl
  deliver-last reader later (some (ok (some chunk))) final = absurd (final chunk refl)

  -- Whatever chunks the reader gives before it ends, fails or throws, the stream yields exactly them,
  -- in order, then the failure if there was one, and ends; it asks for no reply behind the last one.
  pub into_stream-Carry :
      (reader : js.Value) {replies : List (Reply js)} {chunks : List Text}
      → Carry replies chunks
      → (last : Reply js) (later : List (Reply js)) (answer : Option ChunkResult)
      → sent js last ≡ answer
      → Final answer
      → into_stream js (replies ++ last ∷ later) (new js reader) ≡ record {
        items = map (λ chunk. ok chunk) chunks ++ last_items answer;
        ended = true;
        reader = spent reader;
        unread = later;
      }
  unfolding ended settle deliver
  into_stream-Carry reader done last later answer e final =
      stream-settle reader last later e ∙ deliver-last reader later answer final
  into_stream-Carry reader (more {reply} {chunk} carried rest) last later answer e final =
      stream-settle reader reply _ carried
      ∙ ap (λ (s : Streamed js). record s { items = ok chunk ∷ s.items })
          (into_stream-Carry reader rest last later answer e final)
