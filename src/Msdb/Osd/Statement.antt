-- ===== src/Msdb/Osd/Statement.antt =====
-- The SQL texts of the functions on struct osd.
use build_project.Prelude.{
  ℕ, ◌≤◌, ◌<◌, false, some, ◌∷◌, ◌++◌, Bytes, codes, length, length-append, append_assoc, ◌∙◌,
  fmt_d, length-fmt_d, snprintf, snprintf_fits, length-snprintf, ◌==◌, arith, ◌≡◌, refl, ap, All,
}
use build_project.Msdb.Quote.{quote, double_quotes}
use build_project.Msdb.Quote.Literal.{
  read_literal, read_literal-double_quotes, read_literal-raw, length-double_quotes,
}
use build_project.Msdb.Osd.{Osd, osd_update_rest, osd_update, osd_insert_rest, osd_insert}

-- `%f` writes the four positions of this struct in at most 37 bytes each, as it does of any double whose
-- amount is below 1e29; a position is a part of the picture.
pub record IsShort (fmt_f : ℕ → Bytes) (o : Osd) : Type 0 where
  pub date_x : length (fmt_f o.date_pos_x) ≤ 37
  pub date_y : length (fmt_f o.date_pos_y) ≤ 37
  pub name_x : length (fmt_f o.name_pos_x) ≤ 37
  pub name_y : length (fmt_f o.name_pos_y) ≤ 37

-- What stands in front of the name.
abbrev update_head : Bytes
update_head = codes "update osd set name = '"

length-osd_update_rest :
    (fmt_f : ℕ → Bytes) (o : Osd) → IsShort fmt_f o → length (osd_update_rest fmt_f o) ≤ 361
unfolding osd_update_rest
length-osd_update_rest fmt_f o short = simp (length-append) omega (
  arith,
  length-fmt_d o.show_name,
  length-fmt_d o.show_date,
  length-fmt_d o.show_week,
  length-fmt_d o.date_format,
  length-fmt_d o.time_format,
  length-fmt_d o.alpha,
  length-fmt_d o.id,
  short.date_x,
  short.date_y,
  short.name_x,
  short.name_y,
)

length-osd_update :
    (fmt_f : ℕ → Bytes) (o : Osd)
    → IsShort fmt_f o
    → length (update_head ++ (double_quotes (snprintf 64 o.name) ++ osd_update_rest fmt_f o)) < 512
length-osd_update fmt_f o short = simp (length-append) omega (
  arith,
  length-osd_update_rest fmt_f o short,
  length-double_quotes (snprintf 64 o.name),
  length-snprintf 64 o.name (omega arith),
)

-- If `%f` writes each position of the struct in at most 37 bytes, the statement of `write_osd` is not
-- cut; and what stands behind its first quote is read by SQL as one literal, whose value is the name cut to 63
-- bytes, and which is followed by the rest of the statement.
pub osd_update_lem :
    (fmt_f : ℕ → Bytes) (o : Osd)
    → IsShort fmt_f o
    → (behind : Bytes) × (rest : Bytes) × (osd_update fmt_f o
        ≡ codes "update osd set name = '" ++ behind)
      × (osd_update_rest fmt_f o ≡ quote ∷ rest)
      × (read_literal behind ≡ some (snprintf 64 o.name, rest))
unfolding osd_update osd_update_rest
osd_update_lem fmt_f o short = (
  _,
  _,
  snprintf_fits 512 _ (length-osd_update fmt_f o short),
  refl,
  read_literal-double_quotes (snprintf 64 o.name) _ refl,
)

-- What stands in front of the name in the insert.
abbrev pub insert_head : Osd → Bytes
insert_head o =
    codes
      "insert into osd(id,name,show_name,show_date,show_week,date_format,time_format,date_pos_x,date_pos_y,name_pos_x,name_pos_y,alpha) values("
    ++ (fmt_d o.id ++ codes ",'")

length-osd_insert_rest :
    (fmt_f : ℕ → Bytes) (o : Osd) → IsShort fmt_f o → length (osd_insert_rest fmt_f o) ≤ 227
unfolding osd_insert_rest
length-osd_insert_rest fmt_f o short = simp (length-append) omega (
  arith,
  length-fmt_d o.show_name,
  length-fmt_d o.show_date,
  length-fmt_d o.show_week,
  length-fmt_d o.date_format,
  length-fmt_d o.time_format,
  length-fmt_d o.alpha,
  short.date_x,
  short.date_y,
  short.name_x,
  short.name_y,
)

osd_insert_uncut :
    (fmt_f : ℕ → Bytes) (o : Osd)
    → IsShort fmt_f o
    → length o.name ≤ 63
    → osd_insert fmt_f o ≡ insert_head o ++ (o.name ++ osd_insert_rest fmt_f o)
unfolding osd_insert
osd_insert_uncut fmt_f o short fits =
    rw
      (
        append_assoc
            (codes
              "insert into osd(id,name,show_name,show_date,show_week,date_format,time_format,date_pos_x,date_pos_y,name_pos_x,name_pos_y,alpha) values(")
            (fmt_d o.id ++ codes ",'") (o.name ++ osd_insert_rest fmt_f o),
        append_assoc (fmt_d o.id) (codes ",'") (o.name ++ osd_insert_rest fmt_f o),
      )
      (snprintf_fits 1024 _ (
        simp (length-append) omega
          (arith, length-osd_insert_rest fmt_f o short, length-fmt_d o.id)))

-- If `%f` writes each position in at most 37 bytes, a name of at most 63 bytes with a quote inside, and
-- no other right behind it, is not kept by `insert_osd`: the literal that SQL
-- reads ends at that quote, and the rest of the name is read as SQL, in front of the other values.
pub osd_insert_injected :
    (fmt_f : ℕ → Bytes) (o : Osd) (a b : Bytes) (c : ℕ)
    → IsShort fmt_f o
    → o.name ≡ a ++ (quote ∷ c ∷ b)
    → length o.name ≤ 63
    → All (λ x. (x == quote) ≡ false) a
    → (c == quote) ≡ false
    → (behind : Bytes) × (osd_insert fmt_f o ≡ insert_head o ++ behind)
      × (read_literal behind ≡ some (a, (c ∷ b) ++ osd_insert_rest fmt_f o))
osd_insert_injected fmt_f o a b c short named fits plain other =
    let rest = osd_insert_rest fmt_f o in
    (
      a ++ (quote ∷ ((c ∷ b) ++ rest)),
      osd_insert_uncut fmt_f o short fits
          ∙ ap (λ n. insert_head o ++ n)
              (ap (λ n. n ++ rest) named ∙ append_assoc a (quote ∷ c ∷ b) rest),
      read_literal-raw a ((c ∷ b) ++ rest) plain other,
    )
