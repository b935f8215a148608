-- ===== src/Sockets/Print.antt =====
-- The line of `print_epollevent` of src/io/io.cpp, which is built in an array of 100 bytes.
use linux_image_server.Base.{ℕ, ◌+◌, ◌≤◌, ◌<◌, List, [], ◌∷◌, length, arith, branch}
use linux_image_server.Sockets.{has_bit, event_names, name_of, print_epollevent}

-- The bytes of every name together.
total : List (ℕ × List ℕ) → ℕ
total [] = 0
total ((flag, name) ∷ names) = length name + total names

length-name_of :
    (names : List (ℕ × List ℕ)) (event : ℕ) → length (name_of names event) ≤ total names
unfolding name_of total
length-name_of [] event = omega arith
length-name_of ((flag, name) ∷ names) event =
    branch (λ text. length text ≤ length name + total names) (has_bit event flag) name
      (name_of names event) (λ on. omega arith) (λ off. omega (arith, length-name_of names event))

-- With its NUL, the text fits the array for every event.
pub print_epollevent-fits : (event : ℕ) → length (print_epollevent event) < 100
unfolding print_epollevent total
print_epollevent-fits event = omega (arith, length-name_of event_names event)
