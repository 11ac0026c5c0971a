-- ===== src/Bytes/Utf8.antt =====
-- `std::str::from_utf8`: which byte strings are UTF-8, by the table of the Unicode standard.
use pve_cluster.Prelude.{ℕ, ◌-◌, Bool, true, false, ◌&&◌, [], ◌∷◌, leb, ltb, ◌==◌, if◌then◌else◌}
use pve_cluster.Bytes.{Bytes}

-- How many continuation bytes are due, the range of the next one, and whether the byte was allowed.
abbrev pub Expect : Type 0
Expect = ℕ × ℕ × ℕ × Bool

unfoldable pub lead : ℕ → Expect
lead b =
    if ltb b 0x80
    then (0, 0x80, 0xbf, true)
    else (if ltb b 0xc2
        then (0, 0x80, 0xbf, false)
        else (if ltb b 0xe0
            then (1, 0x80, 0xbf, true)
            else (if b == 0xe0
                then (2, 0xa0, 0xbf, true)
                else (if b == 0xed
                    then (2, 0x80, 0x9f, true)
                    else (if ltb b 0xf0
                        then (2, 0x80, 0xbf, true)
                        else (if b == 0xf0
                            then (3, 0x90, 0xbf, true)
                            else (if ltb b 0xf4
                                then (3, 0x80, 0xbf, true)
                                else (if b == 0xf4
                                    then (3, 0x80, 0x8f, true)
                                    else (0, 0x80, 0xbf, false)))))))))

unfoldable pub next : ℕ → ℕ → ℕ → ℕ → Expect
unfolding lead
next due lo hi b = if due == 0 then lead b else (due - 1, 0x80, 0xbf, leb lo b && leb b hi)

unfoldable pub utf8_from : ℕ → ℕ → ℕ → Bytes → Bool
unfolding next
utf8_from due lo hi [] = due == 0
utf8_from due lo hi (b ∷ bs) =
    let (due', lo', hi', allowed) = next due lo hi b in allowed && utf8_from due' lo' hi' bs

unfoldable pub is_utf8 : Bytes → Bool
unfolding utf8_from
is_utf8 bs = utf8_from 0 0x80 0xbf bs
