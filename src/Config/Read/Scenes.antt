-- ===== src/Config/Read/Scenes.antt =====
-- The scene table that `read_config` makes.
use dss_vdc_venta.Prelude.{
  ℕ, List, ◌<◌, ◌≤◌, ◌≡◌, ◌∷◌, Option, All, length, pos, dec_lt, some, none, true, ◌+◌, ℤ, negsuc,
  map, [], arith, ◌++◌, ap, refl, Bool-cases, length-append, suc, inr, inl, append_assoc, sym,
  append-nil, ◌∙◌, ◌⊎◌, subst, false,
}
use dss_vdc_venta.Config.Libconfig.{Libconfig, scene_path, scene_member}
use dss_vdc_venta.Config.Read.{
  or_else, or_stale, append_scene, read_scene, read_scenes, unconfigured, ℕ, List, Option, true,
  negsuc, ℤ, false,
}
use dss_vdc_venta.Scenes.Loaded.{IsNonneg, scene_fields}
use dss_vdc_venta.CString.Decimal.{length-digits_one, length-digits_two, length-digits_three}
use dss_vdc_venta.CString.Search.{fields}
use dss_vdc_venta.CString.{Bytes, print_int, digits}
use dss_vdc_venta.Types.{Scene}

length-print_int : (n : ℕ) → n < 100 → length (print_int (pos n)) ≤ 2
unfolding print_int
length-print_int n h = elim (dec_lt n 10) [
  | yes p ↦ omega (arith, length-digits_one n p)
  | no p ↦ omega (arith, length-digits_two n (omega arith) h)
]

-- A scene number of one or two digits is appended with a dash behind it.
pub append_scene-short :
    (configured : Bytes) (n : ℕ)
    → n < 100
    → append_scene configured (pos n) ≡ some (configured ++ (print_int (pos n) ++ b'-' ∷ []))
unfolding append_scene
append_scene-short configured n h = ground (
  arith,
  length-print_int n h,
  length-append configured (print_int (pos n) ++ b'-' ∷ []),
  length-append (print_int (pos n)) (b'-' ∷ []),
)

-- A scene number of three digits or more overflows the buffers, whatever is configured so far.
pub append_scene_overflow :
    (configured : Bytes) (n : ℕ) → 100 ≤ n → append_scene configured (pos n) ≡ none
unfolding append_scene print_int
append_scene_overflow configured n h = ground (
  arith,
  length-digits_three n h,
  length-append configured (digits n ++ b'-' ∷ []),
  length-append (digits n) (b'-' ∷ []),
)

unconfigured-unused : (slots : List Scene) → All (λ s. s.ds_id ≡ negsuc 0) (map unconfigured slots)
unconfigured-unused [] = tt
unconfigured-unused (s ∷ slots) = (refl, unconfigured-unused slots)

length-unconfigured : (slots : List Scene) → length (map unconfigured slots) ≡ length slots
length-unconfigured [] = refl
length-unconfigured (s ∷ slots) = ap suc (length-unconfigured slots)

pub regroup :
    (configured number rest : Bytes)
    → (configured ++ (number ++ b'-' ∷ [])) ++ rest ≡ configured ++ (number ++ b'-' ∷ rest)
regroup configured number rest = simp append_assoc

module _ (lib : Libconfig) where
  open lib use {Config, lookup, lookup_int}

  -- Every scene of the configuration has a number from 0 to 99.
  pub record IsNumbered (c : Config) : Type 0 where
    pub number :
        (i : ℕ)
        → lookup c (scene_path i) ≡ true
        → (n : ℕ) × (lookup_int c (scene_member i "dsId") ≡ some (pos n)) × (n < 100)

  -- The slot holds the settings of the scene at the index, -1 for what is not set.
  pub record IsRead (c : Config) (i : ℕ) (s : Scene) : Type 0 where
    pub there : lookup c (scene_path i) ≡ true
    pub ds_id : lookup_int c (scene_member i "dsId") ≡ some s.ds_id
    pub fan : s.fan ≡ or_else (lookup_int c (scene_member i "fan")) (negsuc 0)
    pub automatic :
        s.mode_automatic ≡ or_else (lookup_int c (scene_member i "mode_automatic")) (negsuc 0)
    pub sleep : s.mode_sleep ≡ or_else (lookup_int c (scene_member i "mode_sleep")) (negsuc 0)

  abbrev pub AllRead : Config → ℕ → List Scene → Type 0
  AllRead c i [] = Unit
  AllRead c i (s ∷ slots) = IsRead c i s × AllRead c (i + 1) slots

  -- The table of slots from an index on, and the text before it, once read.
  pub record Table (c : Config) (i : ℕ) (iv : Option ℤ) (configured : Bytes) (slots : List Scene)
      : Type 0 where
    pub loaded : List Scene
    pub free : List Scene
    pub result :
        read_scenes lib c i iv configured slots
        ≡ some (loaded ++ free, configured ++ fields (scene_fields loaded))
    pub numbered : All (λ s. IsNonneg s.ds_id) loaded
    pub unused : All (λ s. s.ds_id ≡ negsuc 0) free
    pub same_size : length (loaded ++ free) ≡ length slots
    pub all_read : AllRead c i loaded
    pub ended : (free ≡ []) ⊎ (lookup c (scene_path (i + length loaded)) ≡ false)

  read_slot : Config → ℕ → ℕ → Scene → Scene
  read_slot c i n s = record s {
    ds_id = pos n;
    fan = or_else (lookup_int c (scene_member i "fan")) (negsuc 0);
    mode_automatic = or_else (lookup_int c (scene_member i "mode_automatic")) (negsuc 0);
    mode_sleep = or_else (lookup_int c (scene_member i "mode_sleep")) (negsuc 0);
  }

  after_slot : Config → ℕ → ℕ → Option ℤ
  after_slot c i n = or_stale (lookup_int c (scene_member i "mode_sleep")) (
      or_stale (lookup_int c (scene_member i "mode_automatic"))
        (or_stale (lookup_int c (scene_member i "fan")) (some (pos n))))

  read_scene-numbered :
      (c : Config) (i : ℕ) (iv : Option ℤ) (s : Scene) (n : ℕ)
      → lookup_int c (scene_member i "dsId") ≡ some (pos n)
      → read_scene lib c i iv s ≡ some (read_slot c i n s, after_slot c i n)
  unfolding read_scene read_slot after_slot
  read_scene-numbered c i iv s n e = rw e refl

  pub read_scenes_step :
      (c : Config) (i : ℕ) (iv iv' : Option ℤ) (configured configured' : Bytes) (s s' : Scene)
      (slots slots' : List Scene) (all : Bytes)
      → lookup c (scene_path i) ≡ true
      → read_scene lib c i iv s ≡ some (s', iv')
      → append_scene configured s'.ds_id ≡ some configured'
      → read_scenes lib c (i + 1) iv' configured' slots ≡ some (slots', all)
      → read_scenes lib c i iv configured (s ∷ slots) ≡ some (s' ∷ slots', all)
  unfolding read_scenes
  read_scenes_step c i iv iv' configured configured' s s' slots slots' all there one text rest =
      rw (there, read_scenes) (simp (one, text, rest))

  ended_later :
      (c : Config) (i : ℕ) (loaded free : List Scene)
      → (free ≡ []) ⊎ (lookup c (scene_path (i + 1 + length loaded)) ≡ false)
      → (free ≡ []) ⊎ (lookup c (scene_path (i + suc (length loaded))) ≡ false)
  ended_later c i loaded free (inl e) = inl e
  ended_later c i loaded free (inr e) =
      let same : i + 1 + length loaded ≡ i + suc (length loaded) = omega arith in
      inr (subst (λ n. lookup c (scene_path n) ≡ false) same e)

  -- With scene numbers from 0 to 99, reading the scene table succeeds, whatever was in the slots
  -- and in the variable: the slots are the configured scenes in their order and then free ones, as
  -- many as before, and the text lists the numbers of the configured scenes.
  pub read_scenes-Table :
      (c : Config)
      → IsNumbered c
      → (i : ℕ) (iv : Option ℤ) (configured : Bytes) (slots : List Scene)
      → Table c i iv configured slots
  unfolding read_scenes read_slot
  read_scenes-Table c h i iv configured [] = record {
    loaded = [];
    free = [];
    result = ap (λ (t : Bytes). some ([], t)) (sym (append-nil configured));
    numbered = tt;
    unused = tt;
    same_size = refl;
    all_read = tt;
    ended = inl refl;
  }
  read_scenes-Table c h i iv configured (s ∷ slots) = elim (Bool-cases (lookup c (scene_path i))) [
    | inr absent ↦ record {
      loaded = [];
      free = map unconfigured (s ∷ slots);
      result =
          rw (absent, read_scenes)
            (ap (λ (t : Bytes). some (map unconfigured (s ∷ slots), t))
              (sym (append-nil configured)));
      numbered = tt;
      unused = unconfigured-unused (s ∷ slots);
      same_size = length-unconfigured (s ∷ slots);
      all_read = tt;
      ended = inr (
          subst (λ n. lookup c (scene_path n) ≡ false) (let e : i ≡ i + 0 = omega arith in e)
            absent);
    }
    | inl there ↦
        let (n, number, small) = h.number i there in
        let text = configured ++ (print_int (pos n) ++ b'-' ∷ []) in
        let rest = read_scenes-Table c h (i + 1) (after_slot c i n) text slots in
        record {
          loaded = read_slot c i n s ∷ rest.loaded;
          free = rest.free;
          result =
              read_scenes_step c i iv (after_slot c i n) configured text s (read_slot c i n s) slots
                (rest.loaded ++ rest.free) (text ++ fields (scene_fields rest.loaded)) there
                (read_scene-numbered c i iv s n number) (append_scene-short configured n small)
                rest.result
              ∙ ap (λ (t : Bytes). some (read_slot c i n s ∷ (rest.loaded ++ rest.free), t))
                  (regroup configured (print_int (pos n)) (fields (scene_fields rest.loaded)));
          numbered = ((n, refl), rest.numbered);
          unused = rest.unused;
          same_size = ap suc rest.same_size;
          all_read = (
            record { there = there; ds_id = number; fan = refl; automatic = refl; sleep = refl },
            rest.all_read,
          );
          ended = ended_later c i rest.loaded rest.free rest.ended;
        }
  ]
