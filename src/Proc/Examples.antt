-- ===== src/Proc/Examples.antt =====
-- lab3/3/3_2/My_Kernel.c: a thread that writes into the empty buffer.
use ncku_operating_system.Base.{ℕ, ◌≡◌, refl, List, [], ◌∷◌, min, length, arith}
use ncku_operating_system.Osfs.Types.{ok}
use ncku_operating_system.Proc.{bufsize, strnlen, zeros, UserCopy, my_write, my_read}
use ncku_operating_system.Proc.Laws.{IsCopy, IsBuffer, string, my_write-IsBuffer}
use ncku_operating_system.Proc.Report.{two_reports, described, two_reports_lem}
use ncku_operating_system.Proc.Content.{room, extended, my_read-my_write}

-- Copies that never fail.
abbrev copies : UserCopy
copies = record { copy_from_user = λ bytes. 0; arrived = λ bytes. bytes; copy_to_user = λ bytes. 0 }

copies-IsCopy : IsCopy copies
copies-IsCopy = record { arrived_length = λ bytes. refl; arrived_bytes = λ bytes e. refl }

zeros-IsBuffer : IsBuffer (zeros bufsize)
unfolding zeros
zeros-IsBuffer = (refl, refl)

abbrev hello : List ℕ
hello = b'h' ∷ b'i' ∷ 10 ∷ []

abbrev info : List ℕ
info = b'P' ∷ b'I' ∷ b'D' ∷ 10 ∷ []

my_write-IsBuffer_example : IsBuffer (my_write copies info hello (zeros bufsize)).buf
my_write-IsBuffer_example =
    my_write-IsBuffer copies copies-IsCopy info hello (zeros bufsize) zeros-IsBuffer

my_read-my_write_example :
    ((my_read copies 2000 0 (my_write copies info hello (zeros bufsize)).buf).result
      ≡ ok (extended info hello (zeros bufsize) (min (length hello) (room (zeros bufsize)))))
    × (string (my_read copies 2000 0 (my_write copies info hello (zeros bufsize)).buf).buf ≡ [])
unfolding zeros strnlen
my_read-my_write_example =
    my_read-my_write copies info hello (zeros bufsize) 2000 copies-IsCopy zeros-IsBuffer
      (refl, (refl, (refl, (refl, tt)))) (refl, (refl, (refl, tt))) refl refl refl (omega arith)

abbrev other_info : List ℕ
other_info = b'T' ∷ b'I' ∷ b'D' ∷ 10 ∷ []

abbrev bye : List ℕ
bye = b'b' ∷ b'y' ∷ b'e' ∷ 10 ∷ []

two_reports_lem_example :
    ((two_reports copies info hello other_info bye (zeros bufsize)).0.printed
      ≡ described info hello)
    × ((two_reports copies info hello other_info bye (zeros bufsize)).1.printed
        ≡ described other_info bye)
    × (string (two_reports copies info hello other_info bye (zeros bufsize)).1.buf ≡ [])
unfolding zeros strnlen
two_reports_lem_example =
    two_reports_lem copies copies-IsCopy ((λ bytes. refl), (λ bytes. refl)) info hello other_info
      bye (zeros bufsize) zeros-IsBuffer refl (refl, (refl, (refl, (refl, tt))))
      (refl, (refl, (refl, (refl, tt)))) ((refl, (refl, (refl, tt))), omega arith, omega arith)
      ((refl, (refl, (refl, (refl, tt)))), omega arith, omega arith)
