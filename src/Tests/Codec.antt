-- ===== src/Tests/Codec.antt =====
-- A codec of attributes, as a stand-in for the `json` module: each text is ended by a 0, and each of
-- its characters stands behind a 1. The keys are sorted.
use web_checker_py.Prelude.{ℕ, zero, suc, Option, none, some, [], ◌∷◌, length, Text, ◌≡◌, refl}
use web_checker_py.Core.Models.{Scalar, text, number, Attributes}
use web_checker_py.Storage.Encoding.{JsonCodec}
use web_checker_py.Storage.Success.Snapshot.{IsFaithful, sorted_attributes}

write_text : Text → Text → Text
write_text [] rest = 0 ∷ rest
write_text (c ∷ s) rest = 1 ∷ c ∷ write_text s rest

read_text : Text → Text × Text
read_text [] = ([], [])
read_text (zero ∷ rest) = ([], rest)
read_text (suc n ∷ []) = ([], [])
read_text (suc n ∷ c ∷ rest) = let (s, r) = read_text rest in (c ∷ s, r)

write_scalar : Scalar → Text → Text
write_scalar (text s) rest = 0 ∷ write_text s rest
write_scalar (number n) rest = 1 ∷ n ∷ rest

read_scalar : Text → Option (Scalar × Text)
read_scalar (zero ∷ rest) = let (s, r) = read_text rest in some (text s, r)
read_scalar (suc k ∷ n ∷ rest) = some (number n, rest)
read_scalar _ = none

write_entries : Attributes → Text
write_entries [] = []
write_entries ((k, v) ∷ rest) = write_text k (write_scalar v (write_entries rest))

add_entry : Text → Option (Scalar × Text) → (Text → Option Attributes) → Option Attributes
add_entry k none more = none
add_entry k (some (v, r)) more = elim (more r) [ none ↦ none | some a ↦ some ((k, v) ∷ a) ]

read_entries : ℕ → Text → Option Attributes
read_entries zero s = some []
read_entries (suc n) s = let (k, r) = read_text s in add_entry k (read_scalar r) (read_entries n)

read_text-write_text : (s rest : Text) → read_text (write_text s rest) ≡ (s, rest)
unfolding read_text write_text
read_text-write_text [] rest = refl
read_text-write_text (c ∷ s) rest = rw (read_text-write_text s rest)

read_scalar-write_scalar :
    (v : Scalar) (rest : Text) → read_scalar (write_scalar v rest) ≡ some (v, rest)
unfolding read_scalar write_scalar
read_scalar-write_scalar (text s) rest = rw (read_text-write_text s rest)
read_scalar-write_scalar (number n) rest = refl

read_entries-write_entries : (a : Attributes) → read_entries (length a) (write_entries a) ≡ some a
unfolding read_entries write_entries add_entry
read_entries-write_entries [] = refl
read_entries-write_entries ((k, v) ∷ rest) =
    rw (read_text-write_text k (write_scalar v (write_entries rest)))
      (rw (read_scalar-write_scalar v (write_entries rest)) (rw (read_entries-write_entries rest)))

loads : Text → Option Attributes
loads [] = none
loads (n ∷ s) = read_entries n s

unfoldable pub codec : JsonCodec
unfolding loads read_entries read_text read_scalar add_entry write_entries write_text write_scalar
codec = record {
  dumps = λ a. let b = sorted_attributes a in length b ∷ write_entries b;
  loads = loads;
}

pub codec-IsFaithful : IsFaithful codec
unfolding codec
codec-IsFaithful a d = read_entries-write_entries (sorted_attributes a)
