-- ===== src/Klog/Log.antt =====
-- core/klog.cpp: `init`, `log` and `printf`, and the writes that move the hardware cursor. The cells are those
-- of the memory of the mode that `init` finds. A value of `Log_level_t` meets the assertion of `log`.
use jkos.Base.{
  ℕ, ◌+◌, ◌*◌, ◌/◌, ◌%◌, ◌^◌, Bool, true, false, Option, some, List, [], ◌∷◌, ◌==◌, ◌>>=◌,
}
use jkos.Base.Int.{ℤ, pos}
use jkos.Descriptor.{PortCall, outb}
use jkos.Klog.{Screen, push_color, pop_color, cls, puts}
use jkos.Klog.Format.{Printer, Arg, text, unset, codes, vprintf}

-- `move_cursor`
unfoldable pub move_cursor : Screen → List PortCall
move_cursor s =
    let pos = s.ypos * 80 + s.xpos in
    outb 0x3D4 0x0E
    ∷ outb 0x3D5 (pos / 2 ^ 8 % 2 ^ 8)
    ∷ outb 0x3D4 0x0F
    ∷ outb 0x3D5 (pos % 2 ^ 8)
    ∷ []

-- `printf`; `buf` is a local of the call.
abbrev pub printf : List ℤ → List Arg → Printer → Option Printer
printf fmt args p = vprintf fmt (record p { buf = unset; args = args })

-- `Log_level_t`
pub data LogLevel : Type 0 where
  debug info error : LogLevel

-- `LEVEL_STR`
abbrev pub level_str : LogLevel → List ℤ
level_str debug = codes (91 ∷ 100 ∷ 101 ∷ 98 ∷ 117 ∷ 103 ∷ 93 ∷ 32 ∷ [])
level_str info = codes (91 ∷ 105 ∷ 110 ∷ 102 ∷ 111 ∷ 93 ∷ 32 ∷ [])
level_str error = codes (91 ∷ 101 ∷ 114 ∷ 114 ∷ 111 ∷ 114 ∷ 93 ∷ 32 ∷ [])

unfoldable pub log : LogLevel → List ℤ → List Arg → Printer → Option Printer
unfolding vprintf puts push_color pop_color
log level fmt args p = do
  let s = pop_color (puts (level_str level) (push_color 9 0 p.screen))
  q ← printf fmt args (record p { screen = s })
  some (record q { screen = puts (pos 10 ∷ []) q.screen })

-- "video intialized. mode: %s" and the end of the line, "monochrome" and "color"
abbrev pub mode_format : List ℤ
mode_format = codes (
    118 ∷ 105 ∷ 100 ∷ 101 ∷ 111 ∷ 32 ∷ 105 ∷ 110 ∷ 116 ∷ 105 ∷ 97 ∷ 108 ∷ 105 ∷ 122 ∷ 101 ∷ 100 ∷ 46
    ∷ 32 ∷ 109 ∷ 111 ∷ 100 ∷ 101 ∷ 58 ∷ 32 ∷ 37 ∷ 115 ∷ 10 ∷ [])

abbrev pub mode_text : Bool → List ℤ
mode_text true = codes (109 ∷ 111 ∷ 110 ∷ 111 ∷ 99 ∷ 104 ∷ 114 ∷ 111 ∷ 109 ∷ 101 ∷ [])
mode_text false = codes (99 ∷ 111 ∷ 108 ∷ 111 ∷ 114 ∷ [])

-- `init`, for the word that it reads of the data of the BIOS.
unfoldable pub init : ℕ → Printer → Option Printer
unfolding vprintf push_color cls
init mode p =
    let monochrome = mode / 16 % 4 == 3 in
    let s = cls (push_color 7 0 (record p.screen { monochrome = monochrome })) in
    printf mode_format (text (some (mode_text monochrome)) ∷ []) (record p { screen = s })
