-- ===== src/Slice/Tests.antt =====
-- Small inputs for lib/kvengine/include/kvengine/slice.h.
use ktable_fs.Base.{◌≡◌, ◌⊎◌, true, false, [], ◌∷◌}
use ktable_fs.Slice.{Slice, less, equal}
use ktable_fs.Slice.Order.{less-IsOrder}

abbrev ab : Slice
ab = 97 ∷ 98 ∷ []

abbrev ac : Slice
ac = 97 ∷ 99 ∷ []

abbrev abc : Slice
abc = 97 ∷ 98 ∷ 99 ∷ []

less-IsOrder_example :
    (less ab ab ≡ false)
    × (less ab abc ≡ true → less abc ac ≡ true → less ab ac ≡ true)
    × ((less ab abc ≡ true) ⊎ (equal ab abc ≡ true) ⊎ (less abc ab ≡ true))
less-IsOrder_example = less-IsOrder ab abc ac
