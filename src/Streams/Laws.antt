-- ===== src/Streams/Laws.antt =====
-- What was stored is read back, and what stands behind it is left.
use git2_cxx.Base.{
  ℕ, suc, ◌+◌, ◌*◌, ◌/◌, ◌%◌, ◌^◌, Option, some, ap, ◌∙◌, Bool, true, List, [], ◌∷◌, ◌++◌, Bytes,
  length, map, ◌≡◌, refl, arith, All, length-append, take-append, drop-append,
}
use git2_cxx.Words.{IsU32}
use git2_cxx.Streams.{
  Outcome, done, fault, M, and_then, guard, read, skip, word, store_word, store_bytes, in_buffer,
  load_items, store_items, place_all,
}

-- A step that is done hands its value and the rest over to the next.
pub step :
    {A B : Type 0} {o : Outcome A} {a : A} {rest : Bytes} {z : Outcome B} (f : A → M B)
    → o ≡ done a rest
    → f a rest ≡ z
    → and_then o f ≡ z
unfolding and_then
step f e h = rw e h

pub word-store_word : (w : ℕ) → IsU32 w → (rest : Bytes) → word (store_word w rest) ≡ done w rest
unfolding word store_word
word-store_word w h rest =
    let same : w % 2 ^ 8
          + w / 2 ^ 8 % 2 ^ 8 * 2 ^ 8
          + w / 2 ^ 16 % 2 ^ 8 * 2 ^ 16
          + w / 2 ^ 24 % 2 ^ 8 * 2 ^ 24
        ≡ w =
      omega arith in
    rw same refl

pub read-store_bytes :
    (n : ℕ) (bytes : Bytes)
    → length bytes ≡ n
    → (rest : Bytes) → read n (store_bytes bytes rest) ≡ done bytes rest
unfolding read store_bytes
read-store_bytes n bytes h rest =
    ground (arith, length-append bytes rest, take-append n bytes rest h, drop-append n bytes rest h)

pub skip-none : (rest : Bytes) → skip 0 rest ≡ done tt rest
unfolding skip
skip-none rest = ground arith

pub load_items-store_items :
    {A B : Type 0} (item : M B) (put : A → Bytes → Bytes) (f : A → B) (P : A → Type 0)
    → ((x : A) → P x → (rest : Bytes) → item (put x rest) ≡ done (f x) rest)
    → (xs : List A) → All P xs
    → (rest : Bytes) → load_items (length xs) item (store_items put xs rest) ≡ done (map f xs) rest
unfolding load_items store_items
load_items-store_items item put f P back [] h rest = refl
load_items-store_items item put f P back (x ∷ xs) h rest =
    step _ (back x h.0 (store_items put xs rest))
      (step _ (load_items-store_items item put f P back xs h.1 rest) refl)

pub map-id : {A : Type 0} (xs : List A) → map (λ x. x) xs ≡ xs
map-id [] = refl
map-id (x ∷ xs) = ap (x ∷◌) (map-id xs)

pub load_items-store_same :
    {A : Type 0} (item : M A) (put : A → Bytes → Bytes) (P : A → Type 0)
    → ((x : A) → P x → (rest : Bytes) → item (put x rest) ≡ done x rest)
    → (xs : List A) → All P xs
    → (rest : Bytes) → load_items (length xs) item (store_items put xs rest) ≡ done xs rest
load_items-store_same item put P back xs h rest =
    load_items-store_items item put (λ x. x) P back xs h rest ∙ ap (λ ys. done ys rest) (map-id xs)

-- If what is stored of every item has a place and is read back, so are all of them.
pub load_items-place_all :
    {A B W : Type 0} (place : A → Option W) (put : W → Bytes → Bytes) (item : M B) (f : A → B)
    (P : A → Type 0)
    → ((x : A)
        → P x
        → (w : W) × (place x ≡ some w) × ((rest : Bytes) → item (put w rest) ≡ done (f x) rest))
    → (xs : List A) → All P xs
    → (ws : List W) × (place_all place xs ≡ some ws)
      × ((rest : Bytes)
          → load_items (length xs) item (store_items put ws rest) ≡ done (map f xs) rest)
unfolding place_all load_items store_items
load_items-place_all place put item f P back [] h = ([], refl, λ rest. refl)
load_items-place_all place put item f P back (x ∷ xs) h =
    let (w, placed, there) = back x h.0 in
    let (ws, all_placed, all_there) = load_items-place_all place put item f P back xs h.1 in
    (
      w ∷ ws,
      rw (placed, all_placed, place_all) refl,
      λ rest. step _ (there (store_items put ws rest)) (step _ (all_there rest) refl),
    )

-- A structure that is read back is read back from a buffer, which may be longer.
pub in_buffer-store :
    {A : Type 0} (m : M A) (buffer behind : Bytes) (a : A)
    → m buffer ≡ done a behind
    → (rest : Bytes) → in_buffer m buffer rest ≡ done a rest
unfolding in_buffer
in_buffer-store m buffer behind a h rest = rw (h, in_buffer) refl

-- What is stored in so many bytes is read as a buffer of them.
pub read-put :
    (put : Bytes → Bytes) (n : ℕ)
    → ((rest : Bytes) → put rest ≡ put [] ++ rest)
    → length (put []) ≡ n
    → (rest : Bytes) → read n (put rest) ≡ done (put []) rest
unfolding store_bytes
read-put put n split h rest = rw (split rest) (read-store_bytes n (put []) h rest)

pub guard-true : (b : Bool) → b ≡ true → (s : Bytes) → guard b s ≡ done tt s
guard-true b h s = rw h refl

pub step-fault : {A B : Type 0} {o : Outcome A} (f : A → M B) → o ≡ fault → and_then o f ≡ fault
unfolding and_then
step-fault f e = rw e refl

pub load_items-fault :
    {A : Type 0} (item : M A) (count : ℕ) (s : Bytes)
    → item s ≡ fault
    → load_items (suc count) item s ≡ fault
unfolding load_items
load_items-fault item count s e = step-fault _ e
