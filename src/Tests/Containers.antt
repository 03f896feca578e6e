-- ===== src/Tests/Containers.antt =====
-- Containers of toy cryptography: the prologue's branches, and runs of attempts.
use foldervault.Base.{
  ◌≤◌, ◌≡◌, refl, true, false, List, [], ◌∷◌, some, none, arith, Bytes, Text, codes, All, zeros,
  replicate, take, drop, bytes_eq, fields, ◌≢◌,
}
use foldervault.Vault.{wrong_password, locked_out, io, unexpected_eof, ok, err}
use foldervault.Lockout.{default, check, record_failure, max_attempts}
use foldervault.Lockout.Policy.{evaluated, is_evaluated, wrong_guess}
use foldervault.Random.{IsRandom, fill_bytes}
use foldervault.Crypto.{default_kdf, derive_kek, wrap_key, unwrap_key}
use foldervault.Header.{Header, to_bytes, from_bytes}
use foldervault.Header.Layout.{IsHeader, layout}
use foldervault.Header.RoundTrip.{from_bytes-to_bytes_own, from_bytes-to_bytes_foreign}
use foldervault.Recovery.Unseal.{open_dk-seal_dk}
use foldervault.Recovery.Seal.{generate, seal_dk, open_dk, is_enrolled}
use foldervault.Container.Authorize.{password, master_code, read_header, open_and_authorize}
use foldervault.Container.Guard.{
  container, with_lockout, own, open_locked, open_wrong, open_right, open_master,
  with_lockout-IsHeader,
}
use foldervault.Container.Attempts.{
  IsWrong, Attempt, after_attempts, compared, guessed, after_attempts-guessed,
  compared-le-max_attempts,
}
use foldervault.Container.Foreign.{
  stamped, IsForeign, foreign_one_attempt, foreign_expired, refused_header_clears_readonly,
}
use foldervault.Tests.Toy.{toy, toy-IsLawful, tape}

abbrev dk : Bytes
dk = 9 ∷ zeros 31

abbrev sample : Header
sample = record {
  uuid = zeros 16;
  salt = zeros 16;
  kdf = default_kdf;
  wrapped_dk_pw = (wrap_key toy (codes "secret") dk tape).0;
  wrapped_dk_mk = (seal_dk toy (generate toy tape).0.public dk tape).0;
  lockout = default;
  entry_count = 2;
  payload_len = 100;
  hmac_ok = true;
}

sample-IsHeader : IsHeader sample
unfolding toy zeros wrap_key seal_dk generate replicate fill_bytes
sample-IsHeader = record {
  uuid_length = refl;
  salt_length = refl;
  pw_length = refl;
  mk_length = refl;
  m_cost_range = omega arith;
  t_cost_range = omega arith;
  lanes_range = omega arith;
  fail_count_range = omega arith;
  locked_until_range = omega arith;
  entry_count_range = omega arith;
  payload_len_range = omega arith;
}

abbrev right : Bytes
right = codes "secret"

abbrev wrong : Bytes
wrong = codes "guess"

abbrev key : Bytes
key = codes "install"

abbrev other_key : Bytes
other_key = codes "another"

wrong-derived : derive_kek toy wrong sample.salt default_kdf ≡ ok wrong
unfolding derive_kek toy
wrong-derived = refl

wrong-refused : unwrap_key toy wrong sample.wrapped_dk_pw ≡ none
unfolding unwrap_key wrap_key fill_bytes toy zeros replicate take drop bytes_eq
wrong-refused = refl

sample-IsWrong : IsWrong toy sample wrong
sample-IsWrong = (wrong, wrong-derived, wrong-refused)

right-derived : derive_kek toy right sample.salt default_kdf ≡ ok right
unfolding derive_kek toy
right-derived = refl

right-unwrapped : unwrap_key toy right sample.wrapped_dk_pw ≡ some dk
unfolding unwrap_key wrap_key fill_bytes toy zeros replicate take drop bytes_eq
right-unwrapped = refl

abbrev rest : Bytes
rest = 1 ∷ 2 ∷ []

abbrev runs : List Attempt
runs =
    record { pw = wrong; time = 1000 }
    ∷ record { pw = wrong; time = 900 }
    ∷ record { pw = wrong; time = 2000 }
    ∷ record { pw = wrong; time = 3000 }
    ∷ []

wrongs : All (λ (a : Attempt). IsWrong toy sample a.pw) runs
wrongs = (sample-IsWrong, (sample-IsWrong, (sample-IsWrong, (sample-IsWrong, tt))))

-- Three of four wrong passwords are compared, even with the clock set back between them.
evaluated-run : evaluated default (1000 ∷ 900 ∷ 2000 ∷ 3000 ∷ []) ≡ 3
unfolding evaluated is_evaluated wrong_guess check record_failure
evaluated-run = refl

compared-le-max_attempts_example :
    compared toy key (container toy key sample rest true) runs ≤ max_attempts
compared-le-max_attempts_example =
    compared-le-max_attempts toy toy-IsLawful key 500 runs sample rest true sample-IsHeader wrongs
      (omega arith) (omega arith) (omega arith)

after_attempts-guessed_example :
    after_attempts toy key (container toy key sample rest true) runs
    ≡ container toy key
        (with_lockout sample (guessed default (1000 ∷ 900 ∷ 2000 ∷ 3000 ∷ [])))
        rest
        true
after_attempts-guessed_example =
    after_attempts-guessed toy toy-IsLawful key runs sample rest true sample-IsHeader wrongs

abbrev locked : Header
locked = with_lockout sample (record { fail_count = 3; locked_until = 5000 })

locked-IsHeader : IsHeader locked
locked-IsHeader =
    with_lockout-IsHeader sample (record { fail_count = 3; locked_until = 5000 }) sample-IsHeader
      (omega arith)

locked-check : check locked.lockout 4000 ≡ err (locked_out 5000)
unfolding check
locked-check = refl

open_locked_example :
    open_and_authorize toy (password right) key 4000 (container toy key locked rest true)
    ≡ (err (locked_out 5000), container toy key locked rest true)
open_locked_example =
    open_locked toy toy-IsLawful key locked locked-IsHeader right 4000 rest true locked-check

sample-check : check sample.lockout 4000 ≡ ok tt
unfolding check
sample-check = refl

open_wrong_example :
    open_and_authorize toy (password wrong) key 4000 (container toy key sample rest true) ≡ (
      err (record_failure default 4000).1,
      container toy key (with_lockout sample (record_failure default 4000).0) rest true,
    )
open_wrong_example =
    open_wrong toy toy-IsLawful key sample sample-IsHeader wrong wrong 4000 rest true sample-check
      wrong-derived wrong-refused

open_right_example :
    open_and_authorize toy (password right) key 4000 (container toy key sample rest true) ≡ (
      ok (record { header = own (with_lockout sample default); dk = dk; was_readonly = true }),
      container toy key (with_lockout sample default) rest false,
    )
open_right_example =
    open_right toy toy-IsLawful key sample sample-IsHeader right right dk 4000 rest true
      sample-check right-derived right-unwrapped

abbrev code : Text
code = (generate toy tape).0.code

locked-enrolled : is_enrolled locked.wrapped_dk_mk ≡ true
unfolding is_enrolled seal_dk fill_bytes toy zeros replicate
locked-enrolled = refl

tape-IsRandom : IsRandom tape
tape-IsRandom i = omega arith

open_dk-seal_dk_example :
    open_dk toy code (seal_dk toy (generate toy tape).0.public dk tape).0 ≡ some dk
open_dk-seal_dk_example = open_dk-seal_dk toy toy-IsLawful tape tape dk tape-IsRandom

locked-code : open_dk toy code locked.wrapped_dk_mk ≡ some dk
locked-code = open_dk-seal_dk toy toy-IsLawful tape tape dk tape-IsRandom

open_master_example :
    open_and_authorize toy (master_code code) key 4000 (container toy key locked rest true) ≡ (
      ok (record { header = own (with_lockout locked default); dk = dk; was_readonly = true }),
      container toy key (with_lockout locked default) rest false,
    )
open_master_example =
    open_master toy toy-IsLawful key locked locked-IsHeader code dk 4000 rest true locked-enrolled
      locked-code

-- A MAC that is no MAC, as behind an edited header.
abbrev forged : Bytes
forged = zeros 32

sample-IsForeign : IsForeign toy sample forged key
unfolding toy zeros replicate
sample-IsForeign = (refl, λ e. cc e)

foreign_one_attempt_example :
    let opened =
      open_and_authorize toy (password wrong) key 4000 (stamped sample forged rest true) in
    (opened.0 ≡ err (locked_out 90400))
    × (open_and_authorize toy (password right) key 90000 opened.1
        ≡ (err (locked_out 90400), opened.1))
foreign_one_attempt_example =
    foreign_one_attempt toy toy-IsLawful forged key sample sample-IsHeader sample-IsForeign wrong
      right 4000 90000 rest true sample-IsWrong refl (omega arith) (omega arith) (omega arith)

locked-IsForeign : IsForeign toy locked forged key
unfolding toy zeros replicate
locked-IsForeign = (refl, λ e. cc e)

foreign_expired_example :
    (open_and_authorize toy (password wrong) key 6000 (stamped locked forged rest true)).0
    ≡ err (wrong_password 2)
foreign_expired_example =
    foreign_expired toy toy-IsLawful forged key locked locked-IsHeader locked-IsForeign wrong 6000
      rest true sample-IsWrong (omega arith) (omega arith)

short : read_header toy rest key ≡ err (io unexpected_eof)
unfolding read_header
short = refl

refused_header_clears_readonly_example :
    open_and_authorize toy (password right) key 6000 (record { bytes = rest; readonly = true })
    ≡ (err (io unexpected_eof), record { bytes = rest; readonly = false })
refused_header_clears_readonly_example =
    refused_header_clears_readonly toy key (password right) 6000
      (record { bytes = rest; readonly = true }) short

from_bytes-to_bytes_own_example :
    from_bytes toy (to_bytes toy sample key) key ≡ ok (record sample { hmac_ok = true })
from_bytes-to_bytes_own_example =
    from_bytes-to_bytes_own toy toy-IsLawful sample key sample-IsHeader

sample-differs : toy.hmac key (fields (layout sample)) ≢ toy.hmac other_key (fields (layout sample))
unfolding toy
sample-differs e = cc e

from_bytes-to_bytes_foreign_example :
    from_bytes toy (to_bytes toy sample other_key) key ≡ ok (record sample { hmac_ok = false })
from_bytes-to_bytes_foreign_example =
    from_bytes-to_bytes_foreign toy toy-IsLawful sample other_key key sample-IsHeader sample-differs
