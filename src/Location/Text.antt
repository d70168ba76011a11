-- ===== src/Location/Text.antt =====
-- Texts as lists of code points, decimals, and `NANDPhysicalCoordinate.to_location_str` of
-- person2_ssd/kv_allocator/tensor_mapping.py.
use Prim.Native.Char.{code}
use Prim.Native.String.{String}
use ai_ssd.Prelude.{ℕ, zero, suc, ◌+◌, ◌/◌, ◌%◌, ◌≡◌, refl, List, [], ◌∷◌, ◌++◌, ltb, if◌then◌else◌}

abbrev pub Text : Type 0
Text = List ℕ

-- the code points of a literal
abbrev pub codes : String → Text
codes String.[] = []
codes (String.◌∷◌ c s) = code c ∷ codes s

-- The digits of `n` in front of `out`, the lowest first. Each round divides by ten, so `n` itself
-- is fuel enough.
unfoldable pub digits : ℕ → ℕ → Text → Text
digits zero n out = (b'0' + n % 10) ∷ out
digits (suc fuel) n out =
    let rest = digits fuel (n / 10) ((b'0' + n % 10) ∷ out) in
    if ltb n 10 then (b'0' + n % 10) ∷ out else rest

-- `f"{n}"` of an integer that is not negative
unfoldable pub decimal : ℕ → Text
unfolding digits
decimal n = digits n n []

pub record Location : Type 0 where
  pub channel : ℕ
  pub die : ℕ
  pub plane : ℕ
  pub block : ℕ
  pub page : ℕ

-- `f"ch{channel}_die{die}_pl{plane}_blk{block}_pg{page}"`
unfoldable pub to_location_str : Location → Text
to_location_str l =
    codes "ch"
    ++ (decimal l.channel
        ++ (codes "_die"
            ++ (decimal l.die
                ++ (codes "_pl"
                    ++ (decimal l.plane
                        ++ (codes "_blk"
                            ++ (decimal l.block ++ (codes "_pg" ++ decimal l.page))))))))

to_location_str_runs :
    to_location_str (record { channel = 7; die = 3; plane = 1; block = 63; page = 127 })
    ≡ codes "ch7_die3_pl1_blk63_pg127"
unfolding to_location_str decimal
to_location_str_runs = refl
