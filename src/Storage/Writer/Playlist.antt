-- ===== src/Storage/Writer/Playlist.antt =====
-- `hls_cb` of src/storage.c: the playlist on the card and the files that it names.
use montion_sense.Prelude.{
  ℕ, zero, suc, ◌+◌, ◌≤◌, ◌<◌, ◌≡◌, arith, refl, sym, ap, ap₂, ◌∙◌, subst, Bool, true, false,
  if_elim, Option, none, some, List, [], ◌∷◌, ◌++◌, length, length-append, take, take_all, Rc, ok,
  fail,
}
use montion_sense.Prelude.Int.{ℤ, pos, ltb_ℤ}
use montion_sense.Storage.Sql.{Stmt, Answer}
use montion_sense.Storage.EventDb.{event_db_open, event_db_add_segment}
use montion_sense.Storage.Writer.{
  Writer, Segment, Input, Entry, Folder, Opening, empty_folder, is_discontinuity, add_entry, lines,
  store_files, hls_cb, hls_cbs, hls_create, close_on_fail, start_segment, with_event_db,
  with_folder, open_today,
}

abbrev pub names : List Entry → List ℕ
names [] = []
names (e ∷ es) = e.name ∷ names es

-- The first n numbers.
abbrev pub up_to : ℕ → List ℕ
up_to zero = []
up_to (suc n) = up_to n ++ n ∷ []

names-append_one : (es : List Entry) (e : Entry) → names (es ++ e ∷ []) ≡ names es ++ e.name ∷ []
names-append_one [] e = refl
names-append_one (d ∷ es) e = ap (◌∷◌ d.name) (names-append_one es e)

up_to_next : (n : ℕ) → up_to n ++ n ∷ [] ≡ up_to (n + 1)
up_to_next n = let e : suc n ≡ n + 1 = omega arith in ap up_to e

length-names : (es : List Entry) → length (names es) ≡ length es
length-names [] = refl
length-names (e ∷ es) = ap suc (length-names es)

length-up_to : (n : ℕ) → length (up_to n) ≡ n
length-up_to zero = refl
length-up_to (suc n) = length-append (up_to n) (n ∷ []) ∙ omega (arith, length-up_to n)

length-numbered : (es : List Entry) (n : ℕ) → names es ≡ up_to n → length es ≡ n
length-numbered es n e = sym (length-names es) ∙ ap length e ∙ length-up_to n

-- The playlist with one more line.
next_lines :
    (name : ℕ) (m3u : Option (List Entry)) (e : Entry)
    → e.name ≡ name
    → (es : List Entry) × (m3u ≡ some es) × (names es ≡ up_to name)
    → (es : List Entry) × (add_entry e m3u ≡ some es) × (names es ≡ up_to (name + 1))
next_lines name m3u e named (es, open_, l) = (
  es ++ e ∷ [],
  ap (add_entry e) open_,
  names-append_one es e ∙ ap₂ (λ xs (x : ℕ). xs ++ x ∷ []) l named ∙ up_to_next name,
)

-- The first `limit` segments of a folder are written, and their playlist fits the buffer.
abbrev pub AllWritten : (ℕ → Rc × Rc × ℕ) → ℕ → Type 0
AllWritten writes limit =
    (n : ℕ) → n < limit → (held : ℕ) × (writes n ≡ (ok, ok, held)) × (n < held)

module _ {Db Media : Type 0} where
  -- The segments of the folder are numbered from 0. The playlist in memory names all of them, and the
  -- files and the playlist on the card are those given.
  pub record Listed (files listed : List ℕ) (ws : Writer Db Media) : Type 0 where
    pub on_card : ws.stored.ts_files ≡ files
    pub open_lines : (es : List Entry) × (ws.m3u ≡ some es) × (names es ≡ up_to ws.ts_idx)
    pub stored_lines : names ws.stored.playlist ≡ listed

  -- All that is cut is on the card, and the card's playlist names it.
  abbrev pub Complete : Writer Db Media → Type 0
  Complete ws = Listed (up_to ws.ts_idx) (up_to ws.ts_idx) ws

  module _ (media_input : Media → Option Input → (Rc → Media) × Option Segment) (hls_duration : ℕ)
      (writes : ℕ → Rc × Rc × ℕ) where
    -- Both writes succeed, and the buffer holds a line for each segment of the folder.
    hls_cb-Listed :
        (seg : Segment) (ws : Writer Db Media) (files listed : List ℕ) (held : ℕ)
        → writes ws.ts_idx ≡ (ok, ok, held)
        → ws.ts_idx < held
        → Listed files listed ws
        → Listed
            (files ++ ws.ts_idx ∷ [])
            (up_to (ws.ts_idx + 1))
            (hls_cb media_input hls_duration writes seg ws).1
    unfolding hls_cb store_files
    hls_cb-Listed seg ws files listed held good room l =
        let entry : Entry = record {
          name = ws.ts_idx;
          pts = seg.pts;
          duration = seg.duration;
          discontinuity = is_discontinuity hls_duration ws.last_dts seg.dts;
        } in
        let next = next_lines ws.ts_idx ws.m3u entry refl l.open_lines in
        rw good (record {
          on_card = ap (λ (xs : List ℕ). xs ++ ws.ts_idx ∷ []) l.on_card;
          open_lines = next;
          stored_lines =
              ap (λ o. names (take held (lines o))) next.1
              ∙ ap names (
                  take_all held next.0
                    (omega (arith, length-numbered next.0 (ws.ts_idx + 1) next.2)))
              ∙ next.2;
        })

    -- A segment whose .ts file cannot be written.
    hls_cb-lost :
        (seg : Segment) (ws : Writer Db Media) (files listed : List ℕ) (rc : Rc) (held : ℕ)
        → writes ws.ts_idx ≡ (fail, rc, held)
        → Listed files listed ws
        → Listed files listed (hls_cb media_input hls_duration writes seg ws).1
    unfolding hls_cb store_files
    hls_cb-lost seg ws files listed rc held bad l =
        let entry : Entry = record {
          name = ws.ts_idx;
          pts = seg.pts;
          duration = seg.duration;
          discontinuity = is_discontinuity hls_duration ws.last_dts seg.dts;
        } in
        rw bad (record {
          on_card = l.on_card;
          open_lines = next_lines ws.ts_idx ws.m3u entry refl l.open_lines;
          stored_lines = l.stored_lines;
        })

    store_files-ts_idx :
        (rs : Rc × Rc × ℕ) (name : ℕ) (ws : Writer Db Media)
        → (store_files media_input hls_duration rs name ws).1.ts_idx ≡ ws.ts_idx
    unfolding store_files
    store_files-ts_idx (fail, r, n) name ws = refl
    store_files-ts_idx (ok, fail, n) name ws = refl
    store_files-ts_idx (ok, ok, n) name ws = refl

    hls_cb-ts_idx :
        (seg : Segment) (ws : Writer Db Media)
        → (hls_cb media_input hls_duration writes seg ws).1.ts_idx ≡ ws.ts_idx + 1
    unfolding hls_cb
    hls_cb-ts_idx seg ws = store_files-ts_idx (writes ws.ts_idx) ws.ts_idx _

    hls_cbs-stays :
        (limit : ℕ)
        → AllWritten writes limit
        → (segs : List Segment) (ws : Writer Db Media) → ws.ts_idx + length segs ≤ limit
        → Complete ws
        → Complete (hls_cbs media_input hls_duration writes segs ws)
    unfolding hls_cbs
    hls_cbs-stays limit good [] ws few c = c
    hls_cbs-stays limit good (seg ∷ segs) ws few c =
        let ws' = (hls_cb media_input hls_duration writes seg ws).1 in
        let (held, written, room) = good ws.ts_idx (omega arith) in
        let l = hls_cb-Listed seg ws (up_to ws.ts_idx) (up_to ws.ts_idx) held written room c in
        let n = sym (hls_cb-ts_idx seg ws) in
        hls_cbs-stays limit good segs ws' (omega (arith, n)) (
          subst (λ files. Listed files (up_to ws'.ts_idx) ws') (up_to_next ws.ts_idx ∙ ap up_to n)
            (subst (λ k. Listed (up_to ws.ts_idx ++ ws.ts_idx ∷ []) (up_to k) ws') n l))

    -- When the .ts file of a segment cannot be written and the next segment's files can, and the
    -- buffer has room for the playlist, the playlist on the card names the segment that is missing.
    pub hls_cbs-lost :
        (seg next : Segment) (ws : Writer Db Media) (rc : Rc) (held held' : ℕ)
        → writes ws.ts_idx ≡ (fail, rc, held)
        → writes (ws.ts_idx + 1) ≡ (ok, ok, held')
        → ws.ts_idx + 1 < held'
        → Complete ws
        → Listed
            (up_to ws.ts_idx ++ (ws.ts_idx + 1) ∷ [])
            (up_to (ws.ts_idx + 1 + 1))
            (hls_cbs media_input hls_duration writes (seg ∷ next ∷ []) ws)
    unfolding hls_cbs
    hls_cbs-lost seg next ws rc held held' bad good room c =
        let ws' = (hls_cb media_input hls_duration writes seg ws).1 in
        let n = hls_cb-ts_idx seg ws in
        let l =
          hls_cb-Listed next ws' (up_to ws.ts_idx) (up_to ws.ts_idx) held' (ap writes n ∙ good)
            (omega (arith, n))
            (hls_cb-lost seg ws (up_to ws.ts_idx) (up_to ws.ts_idx) rc held bad c) in
        subst
          (λ k.
            Listed (up_to ws.ts_idx ++ k ∷ []) (up_to (k + 1))
              (hls_cb media_input hls_duration writes next ws').1)
          n l

    -- A segment that has just been opened.
    module _ (run : Stmt → Db → Answer × Db) (fps_low : ℤ) where
      CompleteOnOk : Rc × Writer Db Media → Type 0
      CompleteOnOk r = r.0 ≡ ok → Complete r.1

      hls_create-Complete :
          (o : Option Media) (made : Bool) (ws : Writer Db Media)
          → ws.stored ≡ empty_folder
          → CompleteOnOk (hls_create media_input hls_duration o made ws)
      unfolding hls_create CompleteOnOk
      hls_create-Complete none made ws e h = absurd cc
      hls_create-Complete (some media) false ws e h = absurd cc
      hls_create-Complete (some media) true ws e h = record {
        on_card = ap (λ (d : Folder). d.ts_files) e;
        open_lines = ([], refl, refl);
        stored_lines = ap (λ (d : Folder). names d.playlist) e;
      }

      close_on_fail-Complete :
          (r : Rc × Writer Db Media)
          → CompleteOnOk r
          → CompleteOnOk (close_on_fail media_input hls_duration run fps_low r)
      unfolding close_on_fail CompleteOnOk
      close_on_fail-Complete (ok, ws) c = c
      close_on_fail-Complete (fail, ws) c = λ h. absurd cc

      with_event_db-Complete :
          (o : Opening Db Media) (r : Rc × Option Db) (ws : Writer Db Media)
          → ws.stored ≡ empty_folder
          → CompleteOnOk (with_event_db media_input hls_duration run fps_low o r ws)
      unfolding with_event_db start_segment CompleteOnOk
      with_event_db-Complete o (fail, db) ws e = λ h. absurd cc
      with_event_db-Complete o (ok, db) ws e = close_on_fail-Complete _ (
          if_elim CompleteOnOk
            (ltb_ℤ (event_db_add_segment run db ws.interrupt_idx o.segment_time o.usec).0 (pos 0)) _
            _ (λ _ h. absurd cc) (λ _. hls_create-Complete o.media o.playlist _ e))

      with_folder-Complete :
          (o : Opening Db Media) (rc : Rc) (ws : Writer Db Media)
          → CompleteOnOk (with_folder media_input hls_duration run fps_low o rc ws)
      unfolding with_folder CompleteOnOk
      with_folder-Complete o fail ws = λ h. absurd cc
      with_folder-Complete o ok ws = with_event_db-Complete o (event_db_open run o.event_db) _ refl

      -- After an `open_today` that returns 0, and while every atomic write succeeds and the playlist of
      -- the segments so far fits `s_m3u_buf`, the new folder is complete after each segment: the files 0,
      -- 1, 2 and so on are on the card, and its playlist names exactly these, in order.
      pub hls_cbs-Complete :
          (limit : ℕ)
          → AllWritten writes limit
          → (o : Opening Db Media) (before : Writer Db Media)
          → (open_today media_input hls_duration run fps_low o before).0 ≡ ok
          → (segs : List Segment)
          → (open_today media_input hls_duration run fps_low o before).1.ts_idx + length segs
            ≤ limit
          → Complete (
              hls_cbs media_input hls_duration writes segs
                (open_today media_input hls_duration run fps_low o before).1)
      unfolding open_today CompleteOnOk
      hls_cbs-Complete limit good o before opened segs few =
          hls_cbs-stays limit good segs _ few (with_folder-Complete o o.segment_dir _ opened)
