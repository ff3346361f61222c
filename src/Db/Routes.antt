-- ===== src/Db/Routes.antt =====
-- The routes of lib/kvengine/db.cc.
use ktable_fs.Base.{ℕ, zero, suc, ◌+◌, List, [], ◌∷◌}
use ktable_fs.Slice.{Slice}

-- The numbers from `i` on, `n` in number.
unfoldable pub numbers : ℕ → ℕ → List ℕ
numbers i zero = []
numbers i (suc n) = i ∷ numbers (i + 1) n
