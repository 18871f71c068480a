-- ===== src/Tests/Quote.antt =====
-- The theorems on quoting and on the statements of struct osd at concrete inputs.
use build_project.Prelude.{
  none, ℕ, suc, ◌+◌, pos, Bytes, codes, some, [], ◌∷◌, ◌++◌, length, snprintf, fmt_d, ◌≡◌, refl,
  arith,
}
use build_project.Msdb.Quote.{quote, translate_pwd}
use build_project.Msdb.Quote.Literal.{read_literal, translate_pwd_lem}
use build_project.Msdb.Osd.{osd_query, osd_update, osd_update_rest, osd_insert, osd_insert_rest}
use build_project.Msdb.Osd.Statement.{IsShort, insert_head, osd_update_lem, osd_insert_injected}
use build_project.Tests.Systems.{working}
use build_project.Tests.Samples.{osd_sample}

-- Four bytes of an array of five.
translate_pwd_lem_example :
    ((dst : Bytes) × (translate_pwd (codes "it's!") 4 ≡ some (dst, 6))
      × (read_literal (dst ++ (quote ∷ codes ",1")) ≡ some (codes "it's", codes ",1")))
    × ((k : ℕ) → translate_pwd (codes "it's!") (length (codes "it's!") + suc k) ≡ none)
translate_pwd_lem_example = translate_pwd_lem (codes "it's!") (codes ",1") 4 refl (omega arith)

sample-IsShort : IsShort working.fmt_f osd_sample
sample-IsShort = record {
  date_x = omega arith;
  date_y = omega arith;
  name_x = omega arith;
  name_y = omega arith;
}

osd_update_lem_example :
    (behind : Bytes) × (rest : Bytes) × (osd_update working.fmt_f osd_sample
      ≡ codes "update osd set name = '" ++ behind)
    × (osd_update_rest working.fmt_f osd_sample ≡ quote ∷ rest)
    × (read_literal behind ≡ some (snprintf 64 osd_sample.name, rest))
osd_update_lem_example = osd_update_lem working.fmt_f osd_sample sample-IsShort

-- The sample's name is `a'b`.
osd_insert_injected_example :
    (behind : Bytes) × (osd_insert working.fmt_f osd_sample ≡ insert_head osd_sample ++ behind)
    × (read_literal behind
        ≡ some (codes "a", codes "b" ++ osd_insert_rest working.fmt_f osd_sample))
osd_insert_injected_example =
    osd_insert_injected working.fmt_f osd_sample (codes "a") [] b'b' sample-IsShort refl
      (omega arith) (refl, tt) refl

-- A query as the code writes it.
osd_query_run :
    osd_query (pos 12)
    ≡ codes
        "select id, name, show_name, show_date, show_week, date_format, time_format, date_pos_x,date_pos_y,name_pos_x,name_pos_y,alpha from osd where id=12;"
unfolding osd_query snprintf fmt_d
osd_query_run = refl
