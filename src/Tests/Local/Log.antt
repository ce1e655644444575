-- ===== src/Tests/Local/Log.antt =====
-- A disk as a log of what was written and removed, the latest first.
use Prim.Native.Char.{Char, code}
use Prim.Native.String.append
use Prim.Native.String.{String, [], ◌∷◌, ◌++◌, count}
use text.Mathlib.TextLemmas.{append_cancel_left, append_cancel_right, length-append}
use mathlib.Core.List.{[], ◌∷◌}
use go_memoize.Base.Strings.{string_discrete}
use go_memoize.Base.{
  ℕ, ◌<◌, ◌≤◌, ◌==◌, Bool, true, false, Option, none, some, List, ite, ◌≡◌, ◌≢◌, ◌⊎◌, inl, inr,
  refl, sym, ap, arith, if_pos, if_neg, ◌∙◌,
}
use go_memoize.Base.Result.{Result, ok, err}
use go_memoize.Store.{Error, external}
use go_memoize.Stores.Local.{Os, Codec, DirEntry, DiskEntry, LocalFileStore, path_of}
use go_memoize.Stores.Local.Disk.{
  Files, ReadLaws, WriteLaws, RemoveLaws, NameLaws, DiskLaws, Reliable, Listed,
}

-- What a file holds: nothing, or an entry.
abbrev pub B : Type 0
B = Option (DiskEntry ℕ)

abbrev pub Disk : Type 0
Disk = List (String × Option B)

abbrev pub look : Disk → String → Option B
look [] p = none
look ((q, b) ∷ d) p = ite (string_discrete q p) b (look d p)

abbrev pub missing : Error
missing = external 2

abbrev pub is_missing : Error → Bool
is_missing (external n) = n == 2
is_missing _ = false

abbrev pub read_from : Option B → Result Error B
read_from none = err missing
read_from (some b) = ok b

abbrev pub remove_from : String → Disk → Option B → Option Error × Disk
remove_from p d none = (some missing, d)
remove_from p d (some b) = (none, (p, none) ∷ d)

abbrev pub rename_from : String → String → Disk → Option B → Option Error × Disk
rename_from p q d none = (some missing, d)
rename_from p q d (some b) = (none, (q, some b) ∷ (p, none) ∷ d)

-- a name longer than all together
abbrev pub all_names : Disk → String
all_names [] = "x"
all_names ((p, b) ∷ d) = p ++ all_names d

abbrev decode_from : B → Result Error (DiskEntry ℕ)
decode_from none = err missing
decode_from (some x) = ok x

abbrev pub listing : Disk → List DirEntry
listing [] = []
listing ((p, b) ∷ d) = record { name = p; is_dir = false } ∷ listing d

abbrev pub log_os : Os Disk B String
log_os = record {
  join = λ dir n. n;
  is_not_exist = is_missing;
  read_file = λ p d. (read_from (look d p), d);
  mkdir_all = λ dir d. (none, d);
  create_temp =
      λ dir pattern d. (ok (pattern ++ all_names d), (pattern ++ all_names d, some none) ∷ d);
  name = λ p. p;
  write = λ p b d. (none, (p, some b) ∷ d);
  close = λ p d. (none, d);
  rename = λ p q d. rename_from p q d (look d p);
  remove = λ p d. remove_from p d (look d p);
  read_dir = λ dir d. (ok (listing d), d);
}

abbrev pub log_files : Files Disk B
log_files = record { at = look; empty = none }

look_self : (d : Disk) (p : String) (b : Option B) → look ((p, b) ∷ d) p ≡ b
look_self d p b = if_pos (string_discrete p p) refl b (look d p)

look_ne : (d : Disk) (p q : String) (b : Option B) → q ≢ p → look ((p, b) ∷ d) q ≡ look d q
look_ne d p q b n = if_neg (string_discrete p q) (λ e. n (sym e)) b (look d q)

all_names-positive : (d : Disk) → 0 < count (all_names d)
all_names-positive [] = omega arith
all_names-positive ((q, b) ∷ d) = omega (arith, length-append q (all_names d), all_names-positive d)

longer-look : (d : Disk) (p : String) → count (all_names d) ≤ count p → look d p ≡ none
longer-look [] p h = refl
longer-look ((q, b) ∷ d) p h =
    let sum = length-append q (all_names d) in
    let some_left = all_names-positive d in
    if_neg (string_discrete q p) (λ e. omega (arith, ap count e)) b (look d p)
    ∙ longer-look d p (omega arith)

fresh-look : (pattern : String) (d : Disk) → look d (pattern ++ all_names d) ≡ none
fresh-look pattern d = longer-look d _ (omega (arith, length-append pattern (all_names d)))

abbrev pub codec : Codec ℕ B
codec = record {
  zero = 0;
  encode = λ x. ok (some x);
  decode = decode_from;
  sum256 = λ key. "k" ++ key;
}

read_contents : (o : Option B) (bytes : B) → read_from o ≡ ok bytes → o ≡ some bytes
read_contents none bytes e = absurd (cc)
read_contents (some b) bytes e = cc

read_missing : (o : Option B) (x : Error) → read_from o ≡ err x → o ≡ none
read_missing none x e = refl
read_missing (some b) x e = absurd (cc)

abbrev ok_name : String → Result Error String
ok_name p = ok p

read_errors : (o : Option B) (x : Error) → read_from o ≡ err x → is_missing x ≡ true
read_errors none x e = let same : missing ≡ x = cc in rw (sym same) refl
read_errors (some b) x e = absurd (cc)

create_fresh :
    (pattern : String) (d : Disk) (tmp : String)
    → ok_name (pattern ++ all_names d) ≡ ok tmp
    → (look d tmp ≡ none)
      × (look ((pattern ++ all_names d, some none) ∷ d) tmp ≡ some none)
      × ((q : String) → q ≢ tmp → look ((pattern ++ all_names d, some none) ∷ d) q ≡ look d q)
create_fresh pattern d tmp e =
    let same : pattern ++ all_names d ≡ tmp = cc in
    rw (sym same)
      (fresh-look pattern d, look_self d _ (some none), λ q n. look_ne d _ q (some none) n)

rename_moves :
    (p q : String) (d : Disk) (o : Option B)
    → look d p ≡ o
    → p ≢ q
    → (rename_from p q d o).0 ≡ none
    → (look (rename_from p q d o).1 q ≡ look d p)
      × (look (rename_from p q d o).1 p ≡ none)
      × ((r : String) → r ≢ p → r ≢ q → look (rename_from p q d o).1 r ≡ look d r)
rename_moves p q d none e n done = absurd (cc)
rename_moves p q d (some b) e n done = (
  look_self ((p, none) ∷ d) q (some b) ∙ sym e,
  look_ne ((p, none) ∷ d) q p (some b) n ∙ look_self d p none,
  λ r np nq. look_ne ((p, none) ∷ d) q r (some b) nq ∙ look_ne d p r none np,
)

rename_failed :
    (p q : String) (d : Disk) (o : Option B) (x : Error)
    → (rename_from p q d o).0 ≡ some x
    → (r : String) → look (rename_from p q d o).1 r ≡ look d r
rename_failed p q d none x e r = refl
rename_failed p q d (some b) x e r = absurd (cc)

remove_gone :
    (p : String) (d : Disk) (o : Option B)
    → (remove_from p d o).0 ≡ none
    → (look (remove_from p d o).1 p ≡ none)
      × ((q : String) → q ≢ p → look (remove_from p d o).1 q ≡ look d q)
remove_gone p d none e = absurd (cc)
remove_gone p d (some b) e = (look_self d p none, λ q n. look_ne d p q none n)

remove_failed :
    (p : String) (d : Disk) (o : Option B) (x : Error)
    → (remove_from p d o).0 ≡ some x
    → (o ≡ none) × (is_missing x ≡ true) × ((q : String) → look (remove_from p d o).1 q ≡ look d q)
remove_failed p d none x e = let same : missing ≡ x = cc in rw (sym same) (refl, refl, λ q. refl)
remove_failed p d (some b) x e = absurd (cc)

reads : ReadLaws log_os log_files
reads = record {
  read-contents = λ p d bytes e. read_contents (look d p) bytes e;
  read-missing = λ p d x e h. read_missing (look d p) x e;
  read-Untouched = λ p d q. refl;
}

writes : WriteLaws log_os log_files
writes = record {
  mkdir-Untouched = λ dir d p. refl;
  create-fresh = λ dir pattern d tmp e. create_fresh pattern d tmp e;
  create-failed = λ dir pattern d e h. absurd (cc);
  write-contents = λ tmp bytes d h e. look_self d tmp (some bytes);
  write-Apart = λ tmp bytes d q n. look_ne d tmp q (some bytes) n;
  close-Untouched = λ tmp d p. refl;
  rename-moves = λ p q d n. rename_moves p q d (look d p) refl n;
  rename-failed = λ p q d e. rename_failed p q d (look d p) e;
}

removes : RemoveLaws log_os log_files
removes = record {
  remove-gone = λ p d. remove_gone p d (look d p);
  remove-failed = λ p d e h. (remove_failed p d (look d p) e h).2;
  remove-missing = λ p d e h m. (remove_failed p d (look d p) e h).0;
}

abbrev pub here : LocalFileStore
here = record { dir = "cache" }

abbrev ok_entries : List DirEntry → Result Error (List DirEntry)
ok_entries entries = ok entries

listing-lists : (d : Disk) (name : String) → (look d name ≡ none) ⊎ Listed name (listing d)
listing-lists [] name = inl refl
listing-lists ((p, b) ∷ d) name = elim (string_discrete p name) [
  | yes e ↦ inr (inl (e, refl))
  | no other ↦ elim (listing-lists d name) [
    | inl gone ↦ inl (if_neg (string_discrete p name) other b (look d name) ∙ gone)
    | inr listed ↦ inr (inr listed)
  ]
]

read_dir_lists :
    (d : Disk) (entries : List DirEntry) (k : String)
    → ok_entries (listing d) ≡ ok entries
    → (look d (("k" ++ k) ++ ".cache") ≡ none) ⊎ Listed (("k" ++ k) ++ ".cache") entries
read_dir_lists d entries k e =
    let same : listing d ≡ entries = cc in rw (sym same) (listing-lists d (("k" ++ k) ++ ".cache"))

abbrev first : String → Option Char
first [] = none
first (c ∷ s) = some c

temp_apart :
    (d : Disk) (tmp k : String)
    → ok_name (".tmp-" ++ all_names d) ≡ ok tmp
    → ("k" ++ k) ++ ".cache" ≢ tmp
temp_apart d tmp k made e =
    let same : ".tmp-" ++ all_names d ≡ tmp = cc in
    let entry_name : first (("k" ++ k) ++ ".cache") ≡ some "k" =
      rw (append.cons "k" "" k, append.cons "k" ("" ++ k) ".cache") refl in
    let temporary : first (".tmp-" ++ all_names d) ≡ some "." =
      rw (append.cons "." "tmp-" (all_names d)) refl in
    let codes : code "k" ≡ code "." = cc (same, e, entry_name, temporary) in omega arith

names : NameLaws log_os codec log_files here
unfolding path_of
names = record {
  path-injective =
      λ k j e. append_cancel_left "k" k j (append_cancel_right ("k" ++ k) ("k" ++ j) ".cache" e);
  temp-apart = λ d tmp k made e. temp_apart d tmp k made e;
  read_dir-Untouched = λ d p. refl;
  read_dir-lists = λ d entries k e. read_dir_lists d entries k e;
  read_dir-missing = λ d x k e. absurd (cc);
}

decode_encode :
    (x : DiskEntry ℕ) (bytes : B) → codec.encode x ≡ ok bytes → codec.decode bytes ≡ ok x
decode_encode x bytes e = let same : some x ≡ bytes = cc in rw (sym same) refl

pub laws : DiskLaws log_os codec log_files here
laws = record {
  reads = reads;
  writes = writes;
  removes = removes;
  names = names;
  decode-encode = λ x bytes e. decode_encode x bytes e;
}

pub reliable : Reliable log_os codec log_files here (λ _. Unit {0})
reliable = record {
  read-errors = λ p d x e. read_errors (look d p) x e;
  mkdir-Made = λ d. (refl, tt);
  create-Made = λ d h. (".tmp-" ++ all_names d, refl);
  write-none = λ tmp bytes d. refl;
  close-none = λ tmp d. refl;
  rename-none = λ p q d bytes e. rw e refl;
  remove-errors = λ p d x e. (remove_failed p d (look d p) x e).1;
  read_dir-errors = λ d x e. absurd (cc);
  encode-ok = λ x. (some x, refl);
}
