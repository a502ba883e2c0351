-- ===== src/Drivers/BcParks/Responses/Bounds.antt =====
-- The size limit of `_get_json` in web_checker/drivers/bcparks_dayuse/driver.py.
use web_checker_py.Prelude.{
  ℕ, ◌+◌, ◌≤◌, true, false, List, [], ◌∷◌, ◌++◌, length, length-append, append-nil, append_assoc,
  Text, ltb, Result, ok, err, raise_if-eq-ok, ok-injective, ◌≡◌, ap, ◌∙◌, subst, arith,
  if◌then◌else◌, Bool-cases, inl, inr,
}
use web_checker_py.Drivers.BcParks.Models.{BcParksError, response_too_large}
use web_checker_py.Drivers.BcParks.Responses.{
  Body, complete, body_timeout, body_failed, chunk, read_body,
}

-- A body that comes whole, in these chunks
abbrev pub of_chunks : List Text → Body
of_chunks [] = complete
of_chunks (bytes ∷ rest) = chunk bytes (of_chunks rest)

-- `b"".join(chunks)`
abbrev pub joined : List Text → Text
joined [] = []
joined (bytes ∷ rest) = bytes ++ joined rest

-- The limit applied to the whole body
abbrev pub limited : ℕ → Text → Result BcParksError Text
limited limit body = if ltb limit (length body) then err response_too_large else ok body

over :
    (limit : ℕ) (body bytes more : Text)
    → ltb limit (length body + length bytes) ≡ true
    → ltb limit (length (body ++ (bytes ++ more))) ≡ true
over limit body bytes more h =
    ground (arith, length-append body (bytes ++ more), length-append bytes more)

read_chunks :
    (limit : ℕ) (body : Text) (chunks : List Text)
    → ltb limit (length body) ≡ false
    → read_body limit body (of_chunks chunks) ≡ limited limit (body ++ joined chunks)
unfolding read_body
read_chunks limit body [] h = rw (append-nil body, h)
read_chunks limit body (bytes ∷ rest) h =
    elim (Bool-cases (ltb limit (length body + length bytes))) [
      | inl e ↦ rw (e, limited, over limit body bytes (joined rest) e)
      | inr e ↦ rw e (
          read_chunks limit (body ++ bytes) rest (rw (length-append body bytes) e)
          ∙ ap (limited limit) (append_assoc body bytes (joined rest)))
    ]

-- A body that comes whole is read exactly if all of it fits in the limit, whatever its chunks are:
-- the limit on the running size is the limit on the joined body.
pub read_body-of_chunks :
    (limit : ℕ) (chunks : List Text)
    → read_body limit [] (of_chunks chunks) ≡ limited limit (joined chunks)
read_body-of_chunks limit chunks = read_chunks limit [] chunks (ground arith)

read_from-le :
    (limit : ℕ) (start : Text) (stream : Body) (body : Text)
    → length start ≤ limit
    → read_body limit start stream ≡ ok body
    → length body ≤ limit
unfolding read_body
read_from-le limit start complete body fits h =
    subst (λ s. length s ≤ limit) (ok-injective start body h) fits
read_from-le limit start body_timeout body fits h = cc
read_from-le limit start body_failed body fits h = cc
read_from-le limit start (chunk bytes rest) body fits h =
    let (small, h1) =
      raise_if-eq-ok (ltb limit (length start + length bytes)) response_too_large _ h in
    read_from-le limit (start ++ bytes) rest body (ground (arith, small, length-append start bytes))
      h1

-- No body that is read is longer than the limit, however its transfer goes on.
pub read_body-le :
    (limit : ℕ) (stream : Body) (body : Text)
    → read_body limit [] stream ≡ ok body
    → length body ≤ limit
read_body-le limit stream body h = read_from-le limit [] stream body (omega arith) h
