-- ===== src/Prices/Sweets/Menu.antt =====
-- `DOCES_UNITARIOS` (app/services/precos.py): the sweets on the menu, with their prices in cents.
use chokobot.Common.{ℕ, Dict, [], ◌∷◌}

unfoldable pub doces_unitarios : Dict ℕ
doces_unitarios =
    ("Brigadeiro Escama", 150)
    ∷ ("Brigadeiro De Ninho", 150)
    ∷ ("Brigadeiro Power", 150)
    ∷ ("Brigadeiro De Ninho Com Nutella", 210)
    ∷ ("Brigadeiro De Creme Brulee", 200)
    ∷ ("Brigadeiro Granule Melken Ao Leite", 200)
    ∷ ("Brigadeiro Granule Melken Amargo", 200)
    ∷ ("Brigadeiro Belga Callebaut Ao Leite", 320)
    ∷ ("Brigadeiro Belga Callebaut Amargo", 320)
    ∷ ("Beijinho", 140)
    ∷ ("Brigadeiro De Amendoim", 140)
    ∷ ("Brigadeiro De Pacoca", 150)
    ∷ ("Casadinho", 160)
    ∷ ("Brigadeiro De Churros", 200)
    ∷ ("Brigadeiro De Limao", 150)
    ∷ ("Brigadeiro Torta De Limao", 160)
    ∷ ("Olho De Sogra", 200)
    ∷ ("Brigadeiro Romeu E Julieta", 200)
    ∷ ("Brigadeiro De Pistache", 400)
    ∷ ("Damasco", 420)
    ∷ ("Bombom Cookies Brigadeiro De Nutella", 330)
    ∷ ("Bombom Abacaxi", 300)
    ∷ ("Bombom Cereja", 300)
    ∷ ("Bombom Maracuja", 300)
    ∷ ("Bombom Prestigio", 300)
    ∷ ("Mini Cestinha De Cereja", 400)
    ∷ ("Bombom Uva Verde", 320)
    ∷ ("Bombom Preto E Branco", 300)
    ∷ ("Bombom Tradicional", 300)
    ∷ ("Bombom Camafeu", 325)
    ∷ ("Coracao Branco Brigadeiro De Nutella", 320)
    ∷ ("Coracao Dourado Brigadeiro De Nutella", 330)
    ∷ ("Coracao Sensacao", 320)
    ∷ ("Mini Cestinha Branca De Limao", 300)
    ∷ ("Mini Cestinha Maracuja", 300)
    ∷ ("Mini Cestinha Mousse Com Praline De Nozes", 320)
    ∷ ("Mini Cestinha De Pistache", 450)
    ∷ ("Chokobom", 590)
    ∷ ("Pirulito De Chocolate", 550)
    ∷ []
