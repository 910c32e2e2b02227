-- ===== src/Agenda/Scheduling.antt =====
-- apps/mcp-agenda/internal/scheduling/model.go. Times are parsed, formatted and put into the zone
-- America/Sao_Paulo by Go's time package and its tzdata, which are the functions of `Host`.
use nova2sonici_osapp.Common.{
  ℕ, ◌+◌, ◌-◌, ◌*◌, Bool, not, ◌&&◌, ◌||◌, Option, none, some, ltb, leb, ◌==◌, if◌then◌else◌,
}
use nova2sonici_osapp.Common.Int.{ℤ}
use nova2sonici_osapp.Common.Fallible.{Fallible, ok, err}
use nova2sonici_osapp.Common.Text.{Text, codes, eq_text}
use nova2sonici_osapp.Mcp.Types.{Json}

-- Whole seconds from a fixed instant that is earlier than any time RFC3339 can write, and the rest.
pub record Time : Type 0 where
  pub unix : ℕ
  pub nanosecond : ℕ

-- What `t.In(loc)` says of a time; Sunday is the weekday 0.
pub record Local : Type 0 where
  pub weekday : ℕ
  pub date : Text
  pub hour : ℕ
  pub minute : ℕ
  pub second : ℕ

pub record AgendaEvent : Type 0 where
  pub start_local : Text
  pub end_local : Text
  pub id : Text
  pub title : Text
  pub start : Text
  pub end : Text
  pub status : Text

pub record AgendaInput : Type 0 where
  pub id : Text
  pub title : Text
  pub start : Text
  pub end : Text
  pub duration : ℤ

-- `zero` is Go's zero Time, which time.Parse returns beside an error. `format` and `format_local`
-- write RFC3339, in UTC and in the zone of the agenda.
pub record Host : Type 0 where
  pub json : Json
  pub decode_input : Text → Option AgendaInput
  pub is_space : ℕ → Bool
  pub parse : Text → Option Time
  pub zero : Time
  pub format : Time → Text
  pub format_local : Time → Text
  pub local : Time → Local

abbrev pub nanoseconds : Time → ℕ
nanoseconds t = t.unix * 1000000000 + t.nanosecond

abbrev pub before : Time → Time → Bool
before a b = ltb (nanoseconds a) (nanoseconds b)

-- The bounds are tested where `b` is the later of the two, so `-` is Go's Sub there.
unfoldable pub refused : Time → Time → Bool
refused a b =
    not (before a b)
    || ltb (31 * 24 * 3600 * 1000000000) (nanoseconds b - nanoseconds a)
    || not (a.nanosecond == 0)
    || not (b.nanosecond == 0)

unfoldable pub interval : Host → Text → Text → Fallible (Time × Time)
unfolding refused
interval h start end = elim (h.parse start) [
  | none ↦ err (codes "invalid_interval")
  | some a ↦ elim (h.parse end) [
    | none ↦ err (codes "invalid_interval")
    | some b ↦ if refused a b then err (codes "invalid_interval") else ok (a, b)
  ]
]

unfoldable pub available : Host → Time → Time → Bool
available h a b =
    let x = h.local a in
    let y = h.local b in
    not (x.weekday == 6)
    && not (x.weekday == 0)
    && eq_text x.date y.date
    && leb 9 x.hour
    && (ltb y.hour 18 || (y.hour == 18 && y.minute == 0 && y.second == 0))
    && leb (nanoseconds b - nanoseconds a) (8 * 3600 * 1000000000)

abbrev parsed : Host → Text → Time
parsed h s = elim (h.parse s) [ none ↦ h.zero | some t ↦ t ]

unfoldable pub local_times : Host → AgendaEvent → AgendaEvent
local_times h e = record e {
  start_local = h.format_local (parsed h e.start);
  end_local = h.format_local (parsed h e.end);
}
