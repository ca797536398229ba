-- ===== src/Runbook/Text.antt =====
-- apps/runbook/service.py: how an entry is appended to a markdown body, with Python's `strip`.
use smallstack_tabler.Prelude.{
  ℕ, Bool, true, false, ◌&&◌, ◌||◌, [], ◌∷◌, ◌++◌, ◌==◌, leb, if◌then◌else◌,
}
use smallstack_tabler.Runbook.Model.{Text}

-- The code points that `str.isspace` accepts, which are those that `str.strip` takes away.
unfoldable pub is_whitespace : ℕ → Bool
is_whitespace c =
    (leb 9 c && leb c 13)
    || (leb 28 c && leb c 32)
    || (c == 133)
    || (c == 160)
    || (c == 5760)
    || (leb 8192 c && leb c 8202)
    || (c == 8232)
    || (c == 8233)
    || (c == 8239)
    || (c == 8287)
    || (c == 12288)

abbrev pub newline : ℕ
newline = 10

abbrev pub is_blank : Text → Bool
is_blank [] = true
is_blank (c ∷ t) = false

unfoldable pub rstrip : Text → Text
rstrip [] = []
rstrip (c ∷ t) = let rest = rstrip t in if is_whitespace c && is_blank rest then [] else c ∷ rest

unfoldable pub lstrip : Text → Text
lstrip [] = []
lstrip (c ∷ t) = let rest = lstrip t in if is_whitespace c then rest else c ∷ t

-- `t.strip()`.
unfoldable pub strip : Text → Text
strip t = rstrip (lstrip t)

-- `t.lstrip("\n")`.
unfoldable pub lstrip_newlines : Text → Text
lstrip_newlines [] = []
lstrip_newlines (c ∷ t) = let rest = lstrip_newlines t in if c == newline then rest else c ∷ t

-- `(head.rstrip() + "\n\n" + body.strip() + "\n").lstrip("\n")`.
unfoldable pub combined : Text → Text → Text
combined head body = lstrip_newlines (rstrip head ++ newline ∷ newline ∷ strip body ++ newline ∷ [])
