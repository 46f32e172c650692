-- ===== src/Examples/Dsn.antt =====
-- The theorems on src/internal/dsn/dsn.go at concrete DSNs, and tests.
use dbexplain.Prelude.{◌<◌, ◌≡◌, refl, false, All, arith}
use dbexplain.Prelude.Text.{Text, codes}
use dbexplain.Dsn.{
  Dsn, url, redacted_userinfo, redacted, label_from, has_bare_unsafe_char, escape_from,
  escape_userinfo,
}
use dbexplain.Dsn.Redact.{escape_userinfo-url, redacted-escape_userinfo}

abbrev secret_info : Text
secret_info = codes "bob:p#a@s"

abbrev bytes : All (λ c. c < 256) secret_info
bytes = (
  omega arith,
  (
    omega arith,
    (
      omega arith,
      (omega arith, (omega arith, (omega arith, (omega arith, (omega arith, (omega arith, tt)))))),
    ),
  ),
)

escape_userinfo-url_example :
    (escape_userinfo (url (codes "mysql") secret_info (codes "h:1/db"))
      ≡ url (codes "mysql") (escape_from 0 secret_info) (codes "h:1/db"))
    × ((has_bare_unsafe_char (escape_from 0 secret_info) ≡ false)
        × (escape_userinfo (escape_userinfo (url (codes "mysql") secret_info (codes "h:1/db")))
            ≡ escape_userinfo (url (codes "mysql") secret_info (codes "h:1/db"))))
escape_userinfo-url_example =
    escape_userinfo-url (codes "mysql") (codes "h:1/db") refl refl secret_info bytes

info_escaped :
    escape_userinfo (codes "mysql://bob:p#a@s@h:1/db") ≡ codes "mysql://bob:p%23a@s@h:1/db"
unfolding escape_userinfo
info_escaped = refl

abbrev bob : Dsn
bob = record {
  raw = codes "mysql://bob:p%23a@s@h:1/db";
  kind = codes "mysql";
  user = codes "bob";
  password = codes "p#a@s";
  host = codes "h";
  port = codes "1";
  db_name = codes "db";
  label = codes "h:1/db";
}

redacted-escape_userinfo_example :
    redacted bob ≡ url (codes "mysql") (redacted_userinfo (codes "bob")) (codes "h:1/db")
unfolding escape_userinfo
redacted-escape_userinfo_example =
    redacted-escape_userinfo (codes "mysql") (codes "h:1/db") refl refl bob secret_info refl refl

bob_labelled : label_from bob ≡ codes "h:1/db"
unfolding label_from
bob_labelled = refl

-- An "@" in a parameter is taken for the end of the userinfo.
parameter_escaped :
    escape_userinfo (codes "mysql://u:p@h/db?label=a@b") ≡ codes "mysql://u:p@h%2Fdb%3Flabel=a@b"
unfolding escape_userinfo
parameter_escaped = refl
