-- ===== src/Cli/Sync/Files.antt =====
-- Which files the sync reads.
use himmelcloak.Prelude.{
  ℕ, ◌+◌, ◌%◌, ◌≤◌, Text, length, null, take, decode, trim_end_matches, [], ◌∷◌, Option, none, some,
  Bool, true, false, leb, is_some, Bool-cases, inl, inr, ◌≡◌, ◌⊎◌, refl, arith,
}
use himmelcloak.Cli.Outcome.{Outcome, done, failed, proceed, require, given}
use himmelcloak.Cli.Sync.{
  Metadata, File, permissions, writable_by_others, private, bad_permissions, size_limit,
  read_bounded, secret_value, acceptable, read_owned_file, line_end,
}

pub proceed-eq_done {ℓ κ μ} :
    {A : Type ℓ} {B : Type κ} {G : Type μ} (m : Outcome A) (f : A → Outcome B) {b : B}
    → proceed m f ≡ done b
    → ((a : A) → m ≡ done a → f a ≡ done b → G)
    → G
proceed-eq_done (done a) f h k = k a refl h
proceed-eq_done (failed e) f h k = absurd cc

pub require-done : (b : Bool) (e : Text) → require b e ≡ done tt → b ≡ true
require-done true e h = refl
require-done false e h = absurd cc

pub given-done : {A : Type 0} (o : Option A) (e : Text) (a : A) → given o e ≡ done a → o ≡ some a
given-done none e a h = absurd cc
given-done (some b) e a h = ground arith

length-trim_end : (p : ℕ → Bool) (s : Text) → length (trim_end_matches p s) ≤ length s
unfolding trim_end_matches
length-trim_end p [] = omega arith
length-trim_end p (c ∷ s) = elim (Text-cases (trim_end_matches p s)) [
  | inl e ↦ rw e (ground arith)
  | inr (d, ds, e) ↦
      (let q = length-trim_end p s in
        rw e (let q' : length (d ∷ ds) ≤ length s = rw e at q in omega arith))
]
  where
    Text-cases : (t : Text) → (t ≡ []) ⊎ ((d : ℕ) × (ds : Text) × (t ≡ d ∷ ds))
    Text-cases [] = inl refl
    Text-cases (d ∷ ds) = inr (d, ds, refl)

read_bounded-bounded :
    (content : Option Text) (limit : ℕ) (value : Text)
    → read_bounded content limit ≡ done value
    → length value ≤ limit
unfolding read_bounded
read_bounded-bounded content limit value h = proceed-eq_done (given content _) _ h λ all _ h1.
    proceed-eq_done (require (is_some (decode (take (limit + 1) all))) _) _ h1 λ _ _ h2.
      proceed-eq_done (require (leb (length (take (limit + 1) all)) limit) _) _ h2
        λ _ a h3. (let fits = require-done _ _ a in ground arith)

secret_value-lem :
    (secret : Bool) (value result : Text)
    → secret_value secret value ≡ done result
    → (length result ≤ length value) × ((secret ≡ false) ⊎ (null result ≡ false))
unfolding secret_value
secret_value-lem false value result h = (ground arith, inl refl)
secret_value-lem true value result h = elim (Bool-cases (null (trim_end_matches line_end value))) [
  | inl e ↦ absurd (ground arith)
  | inr e ↦ (ground (arith, length-trim_end line_end value), inr (ground arith))
]

-- A file whose descriptor is root's, regular, within its limit, and closed to others: no write bit of group or
-- others, and for a secret no bit but the owner's.
pub record IsOwned (secret : Bool) (meta : Metadata) : Type 0 where
  pub regular : meta.is_file ≡ true
  pub root : meta.uid ≡ 0
  pub small : meta.size ≤ size_limit secret
  pub not_writable : writable_by_others (permissions meta.mode) ≡ false
  pub not_readable : (secret ≡ false) ⊎ (permissions meta.mode % 64 ≡ 0)

pub acceptable-IsOwned :
    (secret : Bool) (meta : Metadata) → acceptable secret meta ≡ true → IsOwned secret meta
unfolding acceptable bad_permissions private writable_by_others
acceptable-IsOwned true meta h = record {
  regular = ground arith;
  root = ground arith;
  small = ground arith;
  not_writable = ground arith;
  not_readable = inr (ground arith);
}
acceptable-IsOwned false meta h = record {
  regular = ground arith;
  root = ground arith;
  small = ground arith;
  not_writable = ground arith;
  not_readable = inl refl;
}

-- A file is read only if its opened descriptor is root's, regular, within its size limit and closed to others, and what is
-- read of it stays within that limit, even if it has grown since; a secret is not empty.
pub read_owned_file-IsOwned :
    (opened : Option File) (secret : Bool) {value : Text}
    → read_owned_file opened secret ≡ done value
    → (file : File) × (meta : Metadata) × (opened ≡ some file)
      × (file.metadata ≡ some meta)
      × IsOwned secret meta
      × (length value ≤ size_limit secret)
      × ((secret ≡ false) ⊎ (null value ≡ false))
unfolding read_owned_file
read_owned_file-IsOwned opened secret {value} h = proceed-eq_done (given opened _) _ h λ file a h1.
    proceed-eq_done (given file.metadata _) _ h1 λ meta b h2.
      proceed-eq_done (require (acceptable secret meta) _) _ h2 λ _ c h3.
        proceed-eq_done (read_bounded file.content (size_limit secret)) _ h3 λ text d h4.
          (let (short, some_value) = secret_value-lem secret text value h4 in
            (
              file,
              meta,
              given-done opened _ file a,
              given-done file.metadata _ meta b,
              acceptable-IsOwned secret meta (require-done _ _ c),
              omega (arith, short, read_bounded-bounded file.content (size_limit secret) text d),
              some_value,
            ))
