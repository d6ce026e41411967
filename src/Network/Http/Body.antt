-- ===== src/Network/Http/Body.antt =====
-- What `http_post` makes of the chunks that libcurl hands over.
use dss_vdc_venta.Types.{Request, Globals}
use dss_vdc_venta.Prelude.{
  List, [], ◌∷◌, ◌++◌, Bool, true, false, ℕ, ◌+◌, ◌<◌, ◌≡◌, some, none, length, if◌then◌else◌,
  arith, length-append, append-nil, append_assoc, refl, ◌==◌, ◌||◌, Option, map, ℤ,
}
use dss_vdc_venta.Network.Http.{
  uninitialised, text, MemoryStruct, stored, deliver, performed, response_of, Env, http_post,
}
use dss_vdc_venta.CString.{Bytes}

abbrev pub joined : List Bytes → Bytes
joined [] = []
joined (c ∷ cs) = c ++ joined cs

-- The chunks, each with memory for it.
abbrev pub granted : List Bytes → List (Bool × Bytes)
granted cs = map (λ c. (true, c)) cs

abbrev pub holding : Bytes → MemoryStruct
holding bytes = record { memory = text bytes; size = length bytes }

same_length : (n : ℕ) → (n == n) ≡ true
same_length n = ground arith

deliver-granted :
    (cs : List Bytes) (bytes : Bytes)
    → deliver (granted cs) (holding bytes) ≡ (holding (bytes ++ joined cs), true)
unfolding deliver
deliver-granted [] bytes = rw append-nil refl
deliver-granted (c ∷ cs) bytes =
    rw (same_length (length c), ← length-append bytes c, ← append_assoc bytes c (joined cs))
      (deliver-granted cs (bytes ++ c))

deliver-all :
    (c : Bytes) (cs : List Bytes)
    → deliver (granted (c ∷ cs)) (record { memory = uninitialised; size = 0 })
      ≡ (holding (joined (c ∷ cs)), true)
unfolding deliver
deliver-all c cs =
    let none_before : 0 + length c ≡ length c = omega arith in
    rw (same_length (length c), none_before) (deliver-granted cs c)

-- The transfer is broken off at a chunk with bytes that there is no memory for.
deliver_refused :
    (cs : List Bytes) (c : Bytes) (rest : List (Bool × Bytes)) (mem : MemoryStruct)
    → 0 < length c
    → (deliver (granted cs ++ (false, c) ∷ rest) mem).1 ≡ false
unfolding deliver
deliver_refused [] c rest mem h = ground arith
deliver_refused (d ∷ cs) c rest mem h = rw (same_length (length d)) (
    deliver_refused cs c rest
      (record { memory = text (stored mem.memory ++ d); size = mem.size + length d }) h)

abbrev pub request_of : Bytes → Option (List (Bytes × ℤ)) → Request
request_of url body = record { url = url; body = body }

module _ (env : Env) (url : Bytes) (body : Option (List (Bytes × ℤ))) (g : Globals) where
  abbrev pub posted : List Request
  posted = g.posts ++ request_of url body ∷ []

  -- A transfer that ends well, with memory for every chunk and at least one chunk, hands over the
  -- chunks joined, and their length; with one of the codes 403, 404 and 503 it hands over nothing.
  -- The request is recorded.
  pub http_post_body :
      (c : Bytes) (cs : List Bytes) (code : ℕ)
      → env.attempt posted ≡ performed (granted (c ∷ cs)) true code
      → http_post env url body g
        ≡ some (
          if code == 403 || code == 404 || code == 503
              then none
              else some (holding (joined (c ∷ cs))),
          record g { posts = posted },
        )
  unfolding http_post response_of
  http_post_body c cs code e = rw (e, deliver-all c cs) refl

  -- A transfer in which there is no memory for a chunk with bytes hands over nothing, whatever the
  -- response code.
  pub http_post_out_of_memory :
      (cs : List Bytes) (c : Bytes) (rest : List (Bool × Bytes)) (finished : Bool) (code : ℕ)
      → 0 < length c
      → env.attempt posted ≡ performed (granted cs ++ (false, c) ∷ rest) finished code
      → http_post env url body g ≡ some (none, record g { posts = posted })
  unfolding http_post response_of
  http_post_out_of_memory cs c rest true code h e =
      rw (e, deliver_refused cs c rest (record { memory = uninitialised; size = 0 }) h) refl
  http_post_out_of_memory cs c rest false code h e = rw e refl
