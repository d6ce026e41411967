-- ===== src/Network/Http.antt =====
-- `WriteMemoryCallback` and `http_post` of venta/network.c. What libcurl and the allocator do in a
-- call is a parameter: a function of the requests made so far, the one at hand being the last.
pub mod Body
use dss_vdc_venta.Prelude.{
  ℕ, [], Bool, List, Option, if◌then◌else◌, ℤ, true, ◌==◌, none, ◌++◌, ◌||◌, not, ◌+◌, ◌&&◌, ◌∷◌,
  length, some, false,
}
use dss_vdc_venta.Types.{Request}
use dss_vdc_venta.Network.Action.{Action}
use dss_vdc_venta.CString.{Bytes}

-- `chunk->memory`: one byte that nothing was written to, a text with its NUL, or a null pointer.
pub data Memory : Type 0 where
  uninitialised : Memory
  text : Bytes → Memory
  null : Memory

pub record MemoryStruct : Type 0 where
  pub memory : Memory
  pub size : ℕ

abbrev pub stored : Memory → Bytes
stored (text bytes) = bytes
stored _ = []

-- The new struct, and the number of bytes that libcurl is told were taken.
unfoldable pub write_memory_callback : Bool → Bytes → MemoryStruct → MemoryStruct × ℕ
write_memory_callback allocated contents mem =
    if allocated
    then (
      record { memory = text (stored mem.memory ++ contents); size = mem.size + length contents },
      length contents,
    )
    else (record mem { memory = null }, 0)

-- One call of `http_post` from outside: `malloc` fails, `curl_easy_init` fails, or the transfer
-- runs; it hands over chunks (with whether `realloc` succeeds for each), and ends well or not, with
-- a response code.
pub data Attempt : Type 0 where
  no_memory no_handle : Attempt
  performed : List (Bool × Bytes) → Bool → ℕ → Attempt

-- The environment: libcurl's and the allocator's part of each call, whether `malloc` of a scene
-- succeeds, and the time, each after the requests made so far; and the URLs that libcurl goes on to
-- where the answers to the last request redirect it, which CURLOPT_FOLLOWLOCATION lets it do.
pub record Env : Type 0 where
  pub attempt : List Request → Attempt
  pub scene_allocated : List Request → Bool
  pub time : List Request → ℤ
  pub redirects : List Request → List Bytes

-- The URLs that requests take libcurl to, after those that were made before.
abbrev pub visited : Env → List Request → List Request → List Bytes
visited env before [] = []
visited env before (r ∷ rs) =
    let posts = before ++ r ∷ [] in r.url ∷ (env.redirects posts ++ visited env posts rs)

-- libcurl ends the transfer where the callback takes fewer bytes than it was handed.
unfoldable pub deliver : List (Bool × Bytes) → MemoryStruct → MemoryStruct × Bool
unfolding write_memory_callback
deliver [] mem = (mem, true)
deliver ((allocated, contents) ∷ chunks) mem =
    let (mem', taken) = write_memory_callback allocated contents mem in
    let rest = deliver chunks mem' in if taken == length contents then rest else (mem', false)

abbrev pub is_refused : ℕ → Bool
is_refused code = code == 403 || code == 404 || code == 503

unfoldable pub response_of : Attempt → Option MemoryStruct
unfolding deliver
response_of no_memory = none
response_of no_handle = none
response_of (performed chunks finished code) =
    let (mem, taken) = deliver chunks (record { memory = uninitialised; size = 0 }) in
    if not (finished && taken) then none else if is_refused code then none else some mem

module _ (env : Env) where
  -- The request with the URL that libcurl is given is recorded; `visited` has where libcurl goes.
  unfoldable pub http_post : Bytes → Option (List (Bytes × ℤ)) → Action (Option MemoryStruct)
  unfolding response_of
  http_post url body g =
      let posts = g.posts ++ (record { url = url; body = body } ∷ []) in
      some (response_of (env.attempt posts), record g { posts = posts })
