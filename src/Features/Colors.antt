-- ===== src/Features/Colors.antt =====
-- The print macros of print_bt_features.c: a line with its indentation and its colours.
use transmitter_linux.Common.{
  ℕ, Bool, ◌||◌, Option, none, some, List, [], ◌∷◌, ◌++◌, if◌then◌else◌, codes, replicate,
}

abbrev pub color_off : List ℕ
color_off = 27 ∷ codes "[0m"

abbrev pub color_white_bg : List ℕ
color_white_bg = 27 ∷ codes "[0;47;30m"

-- The answer, and `cached_use_color` behind the call (`none` for -1). `is_terminal` is what `isatty`
-- says of the output; `has_pager` is `pager_pid > 0`.
unfoldable pub use_color : Bool → Bool → Option Bool → Bool × Option Bool
use_color is_terminal has_pager none = (is_terminal || has_pager, some (is_terminal || has_pager))
use_color is_terminal has_pager (some cached) = (cached, some cached)

-- The line that is printed, for the formatted text. "%*c" of a blank is so many blanks.
unfoldable pub print_indent : Bool → ℕ → List ℕ → List ℕ → List ℕ → List ℕ → List ℕ → List ℕ
print_indent colored indent color1 prefix title color2 text =
    replicate indent 32
    ++ ((if colored then color1 else [])
        ++ (prefix
            ++ (title
                ++ ((if colored then color2 else [])
                    ++ (text ++ ((if colored then color_off else []) ++ (10 ∷ [])))))))

abbrev pub print_text : Bool → List ℕ → List ℕ → List ℕ
print_text colored color text = print_indent colored 8 color_off [] [] color text

abbrev pub print_field : Bool → List ℕ → List ℕ
print_field colored text = print_indent colored 8 color_off [] [] color_off text

-- The lines that `print_bitfield` and `print_bt_le_features` make of a feature and of what is left.
unfoldable pub feature_line : Bool → List ℕ → List ℕ
unfolding print_indent
feature_line colored str = print_field colored (replicate 2 32 ++ str)
