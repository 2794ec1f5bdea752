-- ===== src/Runtime/Argparser/KeyPath/Ends.antt =====
-- aliyun-openapi-runtime/argparser/argparser.go: the recursion along a path ends, since each step leaves a
-- shorter path.
use aliyun_cli.Base.{ℕ, ◌<◌, Text, ◌≡◌, length, IsSettled, ok}
use aliyun_cli.Runtime.{Members, Fields}
use aliyun_cli.Runtime.Argparser.{Outcome}
use aliyun_cli.Runtime.Argparser.KeyPath.{Setter}

-- An index leaves less than the text that it stands in front of.
abbrev Shortens : ℕ → Outcome (ℕ × Text) → Type 0
Shortens n r = IsSettled r × ((at : ℕ × Text) → r ≡ ok at → length at.1 < n)

-- What assigns below settles on every path that is shorter.
abbrev SettlesBelow : ℕ → Setter → Type 0
SettlesBelow n set_inside =
    (m : Members) (path : Text) (fs : Fields) → length path < n → IsSettled (set_inside m path fs)
