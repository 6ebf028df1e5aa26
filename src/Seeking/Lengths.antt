-- ===== src/Seeking/Lengths.antt =====
-- How many rows and cursors a keyset page has, whatever the database answers.
use filtrx.Base.{
  ℕ, suc, ◌+◌, ◌≤◌, ◌≡◌, refl, sym, ◌∙◌, ap, Bool, true, false, Option, none, some, List, [], ◌∷◌,
  ◌++◌, Bytes, length, take, drop, ltb, arith, if◌then◌else◌, Bool-cases, inl, inr, length-append,
  length-take, length-drop,
}
use Prim.Native.Nat.{min}
use filtrx.Base.Int.{ℤ, pos, negsuc, pos_part, ltb_ℤ, leb_ℤ}
use filtrx.Value.{Value}
use filtrx.Query.{
  seek_needs_order, seek_size, seek_relevance, Query, SeekState, CompileError, OrderTerm,
  has_relevance_order,
}
use filtrx.Query.Statement.{Statement}
use filtrx.Listing.{
  Fetch, Reply, Db, Result, ok, row, scan_failed, broken, done, refused_query, fetched,
}
use filtrx.Seeking.Rows.{add_cursor-some}
use filtrx.Seeking.Slices.{first_rows, in_turn, checked_size, finish_keyset-in_range}
use filtrx.Seeking.{
  Codec, Mapper, KeysetResult, Ran, Keyed, keyed, failed_keys, key, scan_keys, scan_reply, reverse,
  encode_all, keyset_counted, finish_cursors, finish_keyset, fetch_keyset, fetch_fields, Filter,
  usable, unusable, seek_filter, key_fields, seek_error, unless_error, run_keyset,
}

module _ {ℓ} {A : Type ℓ} where
  length-reverse : (xs : List A) → length (reverse xs) ≡ length xs
  unfolding reverse
  length-reverse [] = refl
  length-reverse (x ∷ xs) =
      length-append (reverse xs) (x ∷ []) ∙ rw (length-reverse xs) (omega arith)

  length-in_turn :
      (before : Bool) (start : ℕ) (xs : List A) → length (in_turn before start xs) ≡ length xs
  unfolding in_turn
  length-in_turn false start xs = refl
  length-in_turn true start xs =
      length-append (take start xs) (reverse (drop start xs))
      ∙ rw (length-reverse (drop start xs), length-take start xs, length-drop start xs)
          (ground arith)

  length-first_rows :
      (more : Bool) (n : ℕ) (xs : List A)
      → length (first_rows more n xs) ≡ (if more then min n (length xs) else length xs)
  unfolding first_rows
  length-first_rows true n xs = length-take n xs
  length-first_rows false n xs = refl

length-encode_all :
    (codec : Codec) (keys : List (List Value)) (cs : List Bytes)
    → encode_all codec keys ≡ some cs
    → length cs ≡ length keys
unfolding encode_all
length-encode_all codec [] [] h = refl
length-encode_all codec [] (c ∷ cs) h = absurd (cc)
length-encode_all codec (k ∷ ks) cs h =
    let (c, ds, here, rest, split) = add_cursor-some (codec.encode k) (encode_all codec ks) cs h in
    ap length split ∙ ap suc (length-encode_all codec ks ds rest)

-- The cursors of a result.
abbrev cursors_in : Result KeysetResult → List Bytes
cursors_in (ok r) = r.cursors
cursors_in e = []

keyset_counted-cursors :
    (o : Option ℤ) (res r : KeysetResult) → keyset_counted o res ≡ ok r → r.cursors ≡ res.cursors
unfolding keyset_counted
keyset_counted-cursors none res r h = absurd (cc)
keyset_counted-cursors (some n) res r h = sym (ap cursors_in h)

-- Only a positive size passes the checks.
pub positive_size :
    (order : List OrderTerm) (small relevance : Bool)
    → let out : Option CompileError = elim order [
      | [] ↦ some seek_needs_order
      | o ∷ os ↦ if small then some seek_size else if relevance then some seek_relevance else none
    ] in
      out ≡ none → small ≡ false
positive_size [] small relevance h = absurd (cc)
positive_size (o ∷ os) true relevance h = absurd (cc)
positive_size (o ∷ os) false relevance h = refl

positive_more : (z : ℤ) (k : ℕ) → leb_ℤ z (pos 0) ≡ false → ltb_ℤ z (pos k) ≡ ltb (pos_part z) k
positive_more (pos n) k h = ground arith
positive_more (negsuc n) k h = ground arith

page_length :
    (n k start d cs e : ℕ)
    → d ≡ start + k
    → cs ≡ (if ltb n k then min n k else k)
    → e ≡ (if ltb n k then min (start + n) d else d)
    → (cs ≤ n) × (e ≡ start + cs)
page_length n k start d cs e h i j = (ground arith, ground arith)

module _ {ℓ} {T : Type ℓ} where
  -- As many rows and cursors were added as the page has, and no more than its size.
  abbrev Sized : SeekState → List T → Result KeysetResult → List T → Type 0
  Sized s dest out d =
      (r : KeysetResult)
      → out ≡ ok r
      → (length r.cursors ≤ pos_part s.size) × (length d ≡ length dest + length r.cursors)

  abbrev Fits : SeekState → List T → Ran T KeysetResult → Type 0
  Fits s dest ran = Sized s dest ran.result ran.dest

  -- The rows scanned so far, with their keys.
  unfoldable pub Counted : List T → Keyed T → Type 0
  Counted dest (keyed d keys) = length d ≡ length dest + length keys
  Counted dest (failed_keys d) = Unit

  scan_keys-Counted :
      (fs : List (T → Value)) (f : Fetch T) (start dest : List T) (keys : List (List Value))
      → length dest ≡ length start + length keys
      → Counted start (scan_keys fs f dest keys)
  unfolding scan_keys Counted
  scan_keys-Counted fs done start dest keys h = h
  scan_keys-Counted fs broken start dest keys h = tt
  scan_keys-Counted fs scan_failed start dest keys h = tt
  scan_keys-Counted fs (row t total rest) start dest keys h =
      scan_keys-Counted fs rest start (dest ++ t ∷ []) (keys ++ key fs t ∷ [])
        (rw (length-append dest (t ∷ []), length-append keys (key fs t ∷ [])) (omega arith))

  counted-Sized :
      (s : SeekState) (dest d : List T) (cs : List Bytes) (out : Result KeysetResult)
      → ((r : KeysetResult) → out ≡ ok r → r.cursors ≡ cs)
      → length cs ≤ pos_part s.size
      → length d ≡ length dest + length cs
      → Sized s dest out d
  counted-Sized s dest d cs out same small grown r h = rw (same r h) (small, grown)

  module _ (db : Db T) (codec : Codec) (q : Query) (s : SeekState) where
    finish_cursors-Fits :
        (dest d : List T) (cs : List Bytes) (more : Bool) (issued : List Statement)
        → length cs ≤ pos_part s.size
        → length d ≡ length dest + length cs
        → Fits s dest (finish_cursors db codec q s (some cs) more d issued)
    unfolding finish_cursors
    finish_cursors-Fits dest d cs more issued small grown = elim (Bool-cases s.total) [
      | inl asked ↦
          rw asked (counted-Sized s dest d cs _ (λ r h. keyset_counted-cursors _ _ r h) small grown)
      | inr unasked ↦
          rw unasked (counted-Sized s dest d cs _ (λ r h. sym (ap cursors_in h)) small grown)
    ]

    encoded-Fits :
        (dest d : List T) (o : Option (List Bytes)) (more : Bool) (issued : List Statement)
        → ((cs : List Bytes)
            → o ≡ some cs
            → (length cs ≤ pos_part s.size) × (length d ≡ length dest + length cs))
        → Fits s dest (finish_cursors db codec q s o more d issued)
    unfolding finish_cursors
    encoded-Fits dest d none more issued h = λ r e. absurd (cc)
    encoded-Fits dest d (some cs) more issued h =
        let (small, grown) = h cs refl in finish_cursors-Fits dest d cs more issued small grown

    -- The page is cut to its size, its rows and its keys alike.
    finish_keyset-Fits :
        (dest : List T) (k : Keyed T) (issued : List Statement)
        → leb_ℤ s.size (pos 0) ≡ false
        → Counted dest k
        → Fits s dest (finish_keyset db codec q s k (length dest) issued)
    unfolding Counted
    finish_keyset-Fits dest (failed_keys d) issued size h =
        unfold finish_keyset in (λ r e. absurd (cc))
    finish_keyset-Fits dest (keyed d keys) issued size h =
        let n = pos_part s.size in
        let more = ltb n (length keys) in
        rw
          (
            finish_keyset-in_range db codec q s d keys (length dest) issued
                (checked_size s.size size) h,
            positive_more s.size (length keys) size,
          )
          (encoded-Fits dest _ _ more issued (λ cs e.
            let cursors =
              length-encode_all codec _ cs e
              ∙ length-in_turn s.before 0 (first_rows more n keys)
              ∙ length-first_rows more n keys in
            let rows =
              length-in_turn s.before (length dest) (first_rows more (length dest + n) d)
              ∙ length-first_rows more (length dest + n) d in
            page_length n (length keys) (length dest) (length d) (length cs) _ h cursors rows))

    pub scan_reply-Counted :
        (fs : List (T → Value)) (reply : Reply T) (dest : List T)
        → Counted dest (scan_reply fs reply dest)
    unfolding scan_reply Counted
    scan_reply-Counted fs refused_query dest = tt
    scan_reply-Counted fs (fetched f) dest = scan_keys-Counted fs f dest dest [] (omega arith)

    fetch_keyset-Fits :
        (fs : List (T → Value)) (f : Filter) (dest : List T)
        → leb_ℤ s.size (pos 0) ≡ false
        → Fits s dest (fetch_keyset db codec q s fs f dest)
    unfolding fetch_keyset
    fetch_keyset-Fits fs (unusable e) dest size = λ r h. absurd (cc)
    fetch_keyset-Fits fs (usable c) dest size =
        finish_keyset-Fits dest _ _ size (scan_reply-Counted fs _ dest)

    fetch_fields-Fits :
        (fs : Option (List (T → Value))) (dest : List T)
        → leb_ℤ s.size (pos 0) ≡ false
        → Fits s dest (fetch_fields db codec q s fs dest)
    unfolding fetch_fields
    fetch_fields-Fits none dest size = λ r h. absurd (cc)
    fetch_fields-Fits (some fs) dest size = fetch_keyset-Fits fs (seek_filter codec q s) dest size

    unless_error-Fits :
        (e : Option CompileError) (dest : List T) (rest : Ran T KeysetResult)
        → (e ≡ none → Fits s dest rest)
        → Fits s dest (unless_error e dest rest)
    unfolding unless_error
    unless_error-Fits (some e) dest rest h = λ r k. absurd (cc)
    unless_error-Fits none dest rest h = h refl

  run_keyset-Fits :
      (db : Db T) (codec : Codec) (mapper : Mapper T) (q : Query) (s : SeekState) (dest : List T)
      → Fits s dest (run_keyset db codec mapper q s dest)
  unfolding run_keyset seek_error
  run_keyset-Fits db codec mapper q s dest =
      unless_error-Fits db codec q s (seek_error q s) dest _ (λ checks.
        fetch_fields-Fits db codec q s (key_fields mapper q.order) dest
          (positive_size q.order (leb_ℤ s.size (pos 0)) (has_relevance_order q) checks))

  -- Whatever the database answers and the codec encodes: a keyset run that succeeds has at most as
  -- many cursors as the page's size, and appends to the destination exactly one row for each.
  pub length-run_keyset :
      (db : Db T) (codec : Codec) (mapper : Mapper T) (q : Query) (s : SeekState) (dest : List T)
      (r : KeysetResult)
      → (run_keyset db codec mapper q s dest).result ≡ ok r
      → (length r.cursors ≤ pos_part s.size)
        × (length (run_keyset db codec mapper q s dest).dest ≡ length dest + length r.cursors)
  length-run_keyset db codec mapper q s dest r h = run_keyset-Fits db codec mapper q s dest r h
