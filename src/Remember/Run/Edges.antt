-- ===== src/Remember/Run/Edges.antt =====
-- The edges in the tables after `_store_new_note` of src/ohmyboring/remember/writer.py.
use ohmyboring.Prelude.{
  Bool, true, false, not, ◌&&◌, ◌||◌, none, List, [], ◌∷◌, ◌++◌, ◌≡◌, refl, ap, ◌∙◌, inl, inr,
  arith, any, filter, Text, codes, is_empty, text_eq, text_eq→eq, Bool-cases, All, All-weaken,
}
use ohmyboring.Prelude.Decimal.{strip}
use ohmyboring.Result.{ok}
use ohmyboring.Remember.Note.{RememberNote}
use ohmyboring.Remember.Graph.{Edge, expected_edges, fan, doc_node_id}
use ohmyboring.Remember.Tables.{Db, get_doc_sha}
use ohmyboring.Remember.Tables.Edges.{has_edge}
use ohmyboring.Remember.Projection.Adds.{has}
use ohmyboring.Remember.Projection.Refines.{IsOwnClaim}
use ohmyboring.Remember.Projection.Whole.{is_rewritten, has-expected_supersedes}
use ohmyboring.Remember.Store.{StoredFile, job_of, is_document, pieces_of, record_supersedes}
use ohmyboring.Remember.Store.Links.{is_linked, record_supersedes-edges}
use ohmyboring.Remember.Store.Refines.{ingest-Refines}
use ohmyboring.Remember.Render.{render_wiki_note}
use ohmyboring.Remember.Writer.{Written, written, World, WriterDeps, log, dedup_decision}
use ohmyboring.Remember.WikiId.{file_name}
use ohmyboring.Remember.Run.{Plan, note_file_path, answer_stored, store_at}

filter_all : (p : Text → Bool) (xs : List Text) → All (λ x. p x ≡ true) xs → filter p xs ≡ xs
filter_all p [] h = refl
filter_all p (x ∷ xs) h = rw h.0 (ap (λ r. x ∷ r) (filter_all p xs h.1))

not_document : (path : Text) (db : Db) → get_doc_sha path db ≡ none → is_document path db ≡ false
not_document path db new = rw (new, is_document) refl

is_linked-known :
    (path : Text) (db d : Db)
    → get_doc_sha path db ≡ none
    → ((old : Text) → text_eq old path ≡ false → is_document old d ≡ is_document old db)
    → (target : Text) → is_document target db ≡ true
    → is_linked path d target ≡ true
is_linked-known path db d new kept target known = elim (Bool-cases (text_eq target path)) [
  | inl same ↦
      let absent : is_document target db ≡ false =
        ap (λ p. is_document p db) (text_eq→eq target path same) ∙ not_document path db new in
      absurd (ground (arith, known, absent))
  | inr other ↦ rw other (kept target other ∙ known)
]

beside :
    (fresh all_edges without before after : Bool)
    → after ≡ without || before
    → all_edges ≡ fresh || without
    → fresh || after ≡ all_edges || before
beside fresh all_edges without before after h k = ground (arith, h, k)

module _ (deps : WriterDeps)
    (embeds : (t : Text) → deps.embedding.embed t ≡ ok deps.embedding.embed_dim) where
  abbrev pub dated : Plan → RememberNote
  dated plan = record plan.note { front = record plan.note.front { date = deps.today } }

  db-answer_stored :
      (plan : Plan) (wiki_id : Text) (stats : _) (w : World)
      → ((answer : Written) × ((answer_stored deps plan wiki_id stats w).0 ≡ written answer))
        × ((answer_stored deps plan wiki_id stats w).1.db
            ≡ (record_supersedes deps.now
                (note_file_path deps wiki_id)
                plan.targets
                plan.judge
                w.db).1)
  unfolding answer_stored log
  db-answer_stored plan wiki_id stats w = ((_, refl), refl)

  -- Storing a new note answers with what was written, and afterwards an edge stands exactly when
  -- graph.py expects it of the note and its targets, or when it stood before and is not a tagged,
  -- uses, about or claims edge of the note. The path of the note is not in the tables, its body is
  -- not blank, each claim is said by nobody or by the owner, every target is in the tables, and
  -- each vector has the dimension asked for.
  pub store_at-Refines :
      (plan : Plan) (wiki_id : Text) (w : World)
      → get_doc_sha (note_file_path deps wiki_id) w.db ≡ none
      → any (λ piece. not (is_empty (strip piece))) (pieces_of (strip plan.note.body)) ≡ true
      → All IsOwnClaim plan.note.front.claims
      → All (λ target. is_document target w.db ≡ true) plan.targets
      → ((answer : Written) × ((store_at deps plan wiki_id w).0 ≡ written answer))
        × ((e : Edge)
            → has e (store_at deps plan wiki_id w).1.db
              ≡ has_edge e (
                  expected_edges deps.parsing.table
                    (dated plan).front
                    (note_file_path deps wiki_id)
                    plan.targets)
                || (has e w.db && not (is_rewritten (note_file_path deps wiki_id) e)))
  unfolding store_at log
  store_at-Refines plan wiki_id w new full own known =
      let note = dated plan in
      let path = note_file_path deps wiki_id in
      let content = render_wiki_note deps.safe_dump wiki_id note.front note.body in
      let file : StoredFile = record {
        path = path;
        content = deps.read_back content;
        mtime = deps.mtime;
      } in
      let (stats, d, ran, here, kept, edges) =
        ingest-Refines deps.embedding embeds deps.parsing.table deps.sha256 note file w.db new full
          own in
      let after : World = record {
        db = d;
        files = w.files ++ (file_name wiki_id, content) ∷ [];
        events = w.events ++ dedup_decision plan.verdict plan.found ∷ [];
      } in
      let (answered, same) = db-answer_stored plan wiki_id stats after in
      let all_linked =
        filter_all (is_linked path d) plan.targets
          (All-weaken (is_linked-known path w.db d new kept) plan.targets known) in
      rw ran (
        answered,
        λ e.
            ap (λ db. has e db) same
            ∙ record_supersedes-edges deps.now path plan.judge plan.targets d here e
            ∙ ap
                (λ ts.
                  has_edge e (fan (doc_node_id path) (codes "supersedes") (codes "doc:") ts)
                  || has e d)
                all_linked
            ∙ beside _ _ _ _ _ (edges e) (
                has-expected_supersedes deps.parsing.table deps.embedding embeds
                  (job_of note.front note.body file) e plan.targets),
      )
