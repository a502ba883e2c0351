-- ===== src/Time/Dates/Midnight.antt =====
-- A date is read as the midnight that its ISO text stands for.
use web_checker_py.Prelude.{◌++◌, true, none, some, Text, codes, nat_eq, ◌≡◌, refl, ◌∙◌, ap, arith}
use web_checker_py.Time.{
  DateTime, in_range, offset_in_range, two, micros_text, offset_text, isoformat, fromisoformat,
}
use web_checker_py.Time.RoundTrip.{fromisoformat-isoformat}
use web_checker_py.Time.Dates.{Date, date_iso}
use web_checker_py.Time.Dates.Valid.{IsDate}

abbrev pub midnight : Date → DateTime
midnight d = record {
  year = d.year;
  month = d.month;
  day = d.day;
  hour = 0;
  minute = 0;
  second = 0;
  microsecond = 0;
  utcoffset = none;
}

abbrev pub midnight_text : Text
midnight_text = codes "T00:00:00"

isoformat-midnight : (d : Date) → date_iso d ++ midnight_text ≡ isoformat (midnight d)
unfolding date_iso isoformat two micros_text offset_text
isoformat-midnight d = refl

in_range-midnight : (d : Date) → IsDate d → in_range (midnight d) ≡ true
unfolding in_range offset_in_range
in_range-midnight d h = ground (arith, h.year, h.month, h.day)

pub fromisoformat-midnight :
    (d : Date) → IsDate d → fromisoformat (date_iso d ++ midnight_text) ≡ some (midnight d)
fromisoformat-midnight d h =
    ap fromisoformat (isoformat-midnight d)
    ∙ fromisoformat-isoformat (midnight d) (in_range-midnight d h)
