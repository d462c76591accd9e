-- ===== src/Prices/Tables.antt =====
-- The tables of app/services/precos.py: the price in reais and the people served.
use chokobot.Common.{ℕ, String, Dict, [], ◌∷◌}

abbrev pub Price : Type 0
Price = ℕ × ℕ

-- `KIT_FESTOU_PRECO`
abbrev pub kit_festou_preco : ℕ
kit_festou_preco = 35

unfoldable pub tradicional_base : Dict Price
tradicional_base =
    ("B3", (120, 15)) ∷ ("B4", (180, 30)) ∷ ("B6", (300, 50)) ∷ ("B7", (380, 80)) ∷ []

unfoldable pub tradicional_adicionais : Dict (Dict ℕ)
tradicional_adicionais =
    (
      "B3",
      ("Abacaxi", 130) ∷ ("Ameixa", 130) ∷ ("Cereja", 135) ∷ ("Morango", 135) ∷ ("Nozes", 125) ∷ [],
    )
    ∷ (
      "B4",
      ("Abacaxi", 195) ∷ ("Ameixa", 195) ∷ ("Cereja", 210) ∷ ("Morango", 210) ∷ ("Nozes", 190) ∷ [],
    )
    ∷ (
      "B6",
      ("Abacaxi", 325) ∷ ("Ameixa", 325) ∷ ("Cereja", 350) ∷ ("Morango", 350) ∷ ("Nozes", 315) ∷ [],
    )
    ∷ (
      "B7",
      ("Abacaxi", 415) ∷ ("Ameixa", 430) ∷ ("Cereja", 450) ∷ ("Morango", 450) ∷ ("Nozes", 400) ∷ [],
    )
    ∷ []

unfoldable pub embrulhado : Dict Price
embrulhado = ("24", (150, 24)) ∷ ("48", (260, 48)) ∷ []

unfoldable pub ingles : Dict Price
ingles =
    ("Belga", (130, 10))
    ∷ ("Bolo Pudim", (140, 10))
    ∷ ("Floresta Negra", (140, 10))
    ∷ ("Língua de Gato", (130, 10))
    ∷ ("Ninho com Morango", (140, 10))
    ∷ ("Nozes com Doce de Leite", (140, 10))
    ∷ ("Olho de Sogra", (120, 10))
    ∷ ("Red Velvet", (120, 10))
    ∷ []

unfoldable pub redondos_p6 : Dict Price
redondos_p6 =
    ("Língua de Gato de Chocolate", (165, 20))
    ∷ ("Língua de Gato de Chocolate Branco", (165, 20))
    ∷ ("Língua de Gato Branco Camafeu", (175, 20))
    ∷ ("Belga", (180, 20))
    ∷ ("Naked Cake", (175, 20))
    ∷ ("Red Velvet", (220, 20))
    ∷ []

unfoldable pub tortas : Dict Price
tortas =
    ("Argentina", (130, 16))
    ∷ ("Banoffee", (130, 16))
    ∷ ("Cheesecake Tradicional Versão Baixa", (120, 16))
    ∷ ("Cheesecake Tradicional Versão Alta", (160, 16))
    ∷ ("Cheesecake Pistache", (250, 16))
    ∷ ("Citrus Pie", (150, 16))
    ∷ ("Limão", (150, 16))
    ∷ []

unfoldable pub mesversario : Dict Price
mesversario = ("P4", (120, 8)) ∷ ("P6", (165, 20)) ∷ []

unfoldable pub alias_adicionais : Dict String
alias_adicionais =
    ("morango", "Morango")
    ∷ ("cereja", "Cereja")
    ∷ ("nozes", "Nozes")
    ∷ ("ameixa", "Ameixa")
    ∷ ("abacaxi", "Abacaxi")
    ∷ []

-- `LINHA_SIMPLES["coberturas"]`
unfoldable pub coberturas : Dict ℕ
coberturas = ("Vulcão", 35) ∷ ("Simples", 25) ∷ []
